-- ===== src/Mapping/Frames.antt =====
-- What holds of `MappingCore` of scantext_module/Mapping.cpp after any sequence of its steps.
use adaptive_lio.Common.{
  ◌⊎◌, subst, ℕ, zero, suc, ◌+◌, ◌≡◌, refl, ap, ◌∙◌, sym, arith, Bool, true, false, List, [], ◌∷◌,
  ◌++◌, length, length-append, either, if◌then◌else◌, inl, inr,
}
use adaptive_lio.Common.Double.{Double}
use adaptive_lio.Imu.Axes.{Vec3}
use adaptive_lio.Linear.{Linear, Se3}
use adaptive_lio.Scan.{Numeric, ScParams, Descriptor, number}
use adaptive_lio.Mapping.{
  Config, KeyFrame, MappingCore, Added, init_database_if_needed, set_config,
  set_scan_context_params, save_map_async, end_save, extend_map, auto_save, is_due, store_frame,
  store_unless_thrown, add_frame_with_sc, FileAction, write_pose,
}

module _ {D : Type 0} ⦃d : Double D⦄ (l : Linear D) where
  -- The indices count up from `i`.
  abbrev pub CountsFrom : ℕ → List (KeyFrame l) → Type 0
  CountsFrom i [] = Unit
  CountsFrom i (kf ∷ kfs) = (kf.index ≡ i) × CountsFrom (suc i) kfs

  -- The indices of the lines of poses.txt since it was opened, newest first.
  abbrev pub pose_lines : List (FileAction l) → List ℕ
  pose_lines [] = []
  pose_lines (FileAction.open_poses ∷ files) = []
  pose_lines (FileAction.write_pose i t p ∷ files) = i ∷ pose_lines files
  pose_lines (FileAction.recreate path ∷ files) = pose_lines files
  pose_lines (FileAction.remove_manifest ∷ files) = pose_lines files
  pose_lines (FileAction.write_cloud i ∷ files) = pose_lines files
  pose_lines (FileAction.write_descriptor kf params ∷ files) = pose_lines files

  -- The points of the map that key frames give, one after another.
  abbrev pub map_of : List (KeyFrame l) → List (Vec3 D) → List (Vec3 D)
  map_of [] points = points
  map_of (kf ∷ kfs) points = map_of kfs (extend_map l kf.pose kf.cloud points)

  -- `n - 1, ..., 0`.
  abbrev pub countdown : ℕ → List ℕ
  countdown zero = []
  countdown (suc n) = n ∷ countdown n

  -- Once the database is there, the next number is that of the next key frame, and poses.txt has one
  -- line for each key frame in their order; before, there are no key frames.
  abbrev pub HasDatabase : Bool → ℕ → List (KeyFrame l) → List (FileAction l) → Type 0
  HasDatabase true index kfs files =
      (index ≡ length kfs) × (pose_lines files ≡ countdown (length kfs))
  HasDatabase false index kfs files = kfs ≡ []

  -- The key frames are numbered in their order, the map is made of their clouds, and `saving_` says
  -- whether the one thread that saves is running.
  pub record Holds (kfs : List (KeyFrame l)) (there : Bool) (index : ℕ)
      (files : List (FileAction l)) (map_points : List (Vec3 D)) (saving : Bool) (threads : ℕ)
      : Type 0 where
    pub numbered : CountsFrom 0 kfs
    pub database : HasDatabase there index kfs files
    pub points : map_points ≡ map_of kfs []
    pub one_thread : threads ≡ (if saving then 1 else 0)

  abbrev pub IsMapping : MappingCore l → Type 0
  IsMapping s =
      Holds s.keyframes s.db_initialized s.frame_index s.files s.global_map s.saving s.save_threads

  CountsFrom-append :
      (i j : ℕ) (kfs : List (KeyFrame l)) (kf : KeyFrame l)
      → CountsFrom i kfs
      → j ≡ i + length kfs
      → kf.index ≡ j
      → CountsFrom i (kfs ++ kf ∷ [])
  CountsFrom-append i j [] kf c e h = (omega arith, tt)
  CountsFrom-append i j (x ∷ xs) kf c e h =
      (c.0, CountsFrom-append (suc i) j xs kf c.1 (omega arith) h)

  map_of-append :
      (kfs : List (KeyFrame l)) (kf : KeyFrame l) (points : List (Vec3 D))
      → map_of (kfs ++ kf ∷ []) points ≡ extend_map l kf.pose kf.cloud (map_of kfs points)
  map_of-append [] kf points = refl
  map_of-append (x ∷ xs) kf points = map_of-append xs kf (extend_map l x.pose x.cloud points)

  save_map_async-IsMapping : (s : MappingCore l) → IsMapping s → IsMapping (save_map_async l s)
  unfolding save_map_async
  save_map_async-IsMapping s v =
      either (λ (t : MappingCore l). IsMapping t) s.saving s
        (record s { saving = true; save_threads = suc s.save_threads }) (λ e. v)
        (λ e. record {
          numbered = v.numbered;
          database = v.database;
          points = v.points;
          one_thread = started s.saving s.save_threads e v.one_thread;
        })
    where
      started : (saving : Bool) (n : ℕ) → saving ≡ false → n ≡ (if saving then 1 else 0) → suc n ≡ 1
      started saving n e h = ground arith

  end_save-IsMapping : (s : MappingCore l) → IsMapping s → IsMapping (end_save l s)
  unfolding end_save
  end_save-IsMapping s v = record {
    numbered = v.numbered;
    database = v.database;
    points = v.points;
    one_thread = ended s.save_threads s.saving v.one_thread;
  }
    where
      ended :
          (n : ℕ) (saving : Bool)
          → n ≡ (if saving then 1 else 0)
          → elim n [ zero ↦ zero | suc m ↦ m ] ≡ 0
      ended zero saving e = refl
      ended (suc n) true e = omega arith
      ended (suc n) false e = omega arith

  auto_save-IsMapping :
      (dist : D) (s : MappingCore l) → IsMapping s → IsMapping (auto_save l dist s)
  unfolding auto_save
  auto_save-IsMapping dist s v =
      let total = d.add s.accumulated_dist_since_save dist in
      either (λ (t : MappingCore l). IsMapping t) (is_due s.config total)
        (record (save_map_async l s) { accumulated_dist_since_save = number 0 })
        (record s { accumulated_dist_since_save = total }) (λ e. save_map_async-IsMapping s v)
        (λ e. v)

  -- The next key frame, with a database that is open.
  next_frame :
      (kf : KeyFrame l) (params : ScParams D) (kfs : List (KeyFrame l)) (there : Bool)
      (files : List (FileAction l)) (map_points : List (Vec3 D)) (saving : Bool) (threads : ℕ)
      → there ≡ true
      → Holds kfs there kf.index files map_points saving threads
      → Holds
          (kfs ++ kf ∷ [])
          there
          (suc kf.index)
          (FileAction.write_descriptor kf params
            ∷ FileAction.write_cloud kf.index
            ∷ write_pose kf.index kf.time kf.pose
            ∷ files)
          (extend_map l kf.pose kf.cloud map_points)
          saving
          threads
  next_frame kf params kfs false files map_points saving threads e v = cc
  next_frame kf params kfs true files map_points saving threads e v =
      let (next, lines) = v.database in
      let longer : length (kfs ++ kf ∷ []) ≡ suc (length kfs) =
        omega (arith, length-append {0} kfs (kf ∷ [])) in
      record {
        numbered = CountsFrom-append 0 kf.index kfs kf v.numbered (omega (arith, next)) refl;
        database = (omega (arith, next, longer), rw longer (rw lines (rw next refl)));
        points = ap (extend_map l kf.pose kf.cloud) v.points ∙ sym (map_of-append kfs kf []);
        one_thread = v.one_thread;
      }

  store_frame-IsMapping :
      (lib : Numeric D) (cloud : List (Vec3 D)) (pose : Se3 l.Matrix l.So3) (time : D)
      (sc : Descriptor D) (rk : List D) (s : MappingCore l)
      → s.db_initialized ≡ true
      → IsMapping s
      → IsMapping (store_frame l lib cloud pose time sc rk s).0
  unfolding store_frame
  store_frame-IsMapping lib cloud pose time sc rk s opened v = auto_save-IsMapping _ _ (
      next_frame _ s.scan_context s.keyframes s.db_initialized s.files s.global_map s.saving
        s.save_threads opened v)

  -- The database is open, or it threw; the invariant holds either way.
  abbrev Prepared : MappingCore l × Bool → Type 0
  Prepared (s, threw) = IsMapping s × ((threw ≡ true) ⊎ (s.db_initialized ≡ true))

  no_frames :
      (there : Bool) (index : ℕ) (kfs : List (KeyFrame l)) (files : List (FileAction l))
      → there ≡ false
      → HasDatabase there index kfs files
      → kfs ≡ []
  no_frames true index kfs files e h = cc
  no_frames false index kfs files e h = h

  -- A database that is opened now has no lines, and there are no key frames.
  fresh_database :
      (kfs : List (KeyFrame l)) → kfs ≡ [] → (0 ≡ length kfs) × ([] ≡ countdown (length kfs))
  fresh_database [] e = (refl, refl)
  fresh_database (kf ∷ kfs) e = cc

  init_database-Prepared :
      (opens : Bool) (s : MappingCore l)
      → IsMapping s
      → Prepared (init_database_if_needed l opens s)
  unfolding init_database_if_needed
  init_database-Prepared opens s v =
      let none_yet = λ (e : s.db_initialized ≡ false).
        no_frames s.db_initialized s.frame_index s.keyframes s.files e v.database in
      either Prepared s.db_initialized _ _ (λ e. (v, inr e))
        (λ e.
          either Prepared opens _ _
            (λ _. (
              record {
                numbered = v.numbered;
                database = fresh_database s.keyframes (none_yet e);
                points = v.points;
                one_thread = v.one_thread;
              },
              inr refl,
            ))
            (λ _. (
              record {
                numbered = v.numbered;
                database =
                    subst
                      (λ there. HasDatabase there s.frame_index s.keyframes (
                        FileAction.open_poses
                        ∷ FileAction.recreate s.config.map_save_path
                        ∷ s.files))
                      (sym e) (none_yet e);
                points = v.points;
                one_thread = v.one_thread;
              },
              inl refl,
            )))

  add_frame-IsMapping :
      (angle : l.So3 → D) (lib : Numeric D) (opens : Bool) (cloud : List (Vec3 D))
      (pose : Se3 l.Matrix l.So3) (time : D) (sc : Descriptor D) (rk : List D) (s : MappingCore l)
      → IsMapping s
      → IsMapping (add_frame_with_sc l angle lib opens cloud pose time sc rk s).0
  unfolding add_frame_with_sc
  add_frame-IsMapping angle lib opens cloud pose time sc rk s v =
      either (λ (r : MappingCore l × Added l). IsMapping r.0) _ _ _ (λ e. v)
        (λ e. stored (init_database_if_needed l opens s) (init_database-Prepared opens s v))
    where
      stored :
          (r : MappingCore l × Bool)
          → Prepared r
          → IsMapping (store_unless_thrown l (store_frame l lib cloud pose time sc rk) r).0
      stored (s', true) (w, _) = w
      stored (s', false) (w, inl e) = cc
      stored (s', false) (w, inr e) = store_frame-IsMapping lib cloud pose time sc rk s' e w

  -- A step: a frame, new options, a request to save, or the end of the thread that saves.
  pub data Step (s t : MappingCore l) : Type 0 where
    frame :
        (angle : l.So3 → D) (lib : Numeric D) (opens : Bool) (cloud : List (Vec3 D))
        (pose : Se3 l.Matrix l.So3) (time : D) (sc : Descriptor D) (rk : List D)
        → t ≡ (add_frame_with_sc l angle lib opens cloud pose time sc rk s).0
        → Step s t
    configure : (config : Config D) → t ≡ set_config l config s → Step s t
    choose_params : (params : ScParams D) → t ≡ set_scan_context_params l params s → Step s t
    request_save : t ≡ save_map_async l s → Step s t
    saved : t ≡ end_save l s → Step s t

  pub data Reach (s : MappingCore l) : MappingCore l → Type 0 where
    here : Reach s s
    next : {t u : MappingCore l} → Reach s t → Step t u → Reach s u

  Step-IsMapping : {s t : MappingCore l} → Step s t → IsMapping s → IsMapping t
  unfolding set_config set_scan_context_params
  Step-IsMapping {s} (frame angle lib opens cloud pose time sc rk e) v =
      subst IsMapping (sym e) (add_frame-IsMapping angle lib opens cloud pose time sc rk s v)
  Step-IsMapping (configure config e) v = subst IsMapping (sym e) v
  Step-IsMapping (choose_params params e) v = subst IsMapping (sym e) v
  Step-IsMapping {s} (request_save e) v = subst IsMapping (sym e) (save_map_async-IsMapping s v)
  Step-IsMapping {s} (saved e) v = subst IsMapping (sym e) (end_save-IsMapping s v)

  -- After any sequence of frames, new options, requests to save and ends of a save: the key frames
  -- are numbered from 0 in their order, and the next number is that of the next one; poses.txt has
  -- one line for each key frame since it was opened, in their order; the map is made of their clouds;
  -- and at most one thread saves the map, which is what `saving_` says.
  pub Reach-IsMapping : {s t : MappingCore l} → IsMapping s → Reach s t → IsMapping t
  Reach-IsMapping v here = v
  Reach-IsMapping v (next r st) = Step-IsMapping st (Reach-IsMapping v r)
