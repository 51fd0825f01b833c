-- ===== src/Linear.antt =====
-- What the program uses of Eigen and Sophus: an interface of operations with no law, over
-- the dense matrices and vectors of Eigen and `Sophus::SO3` as two types; both libraries are not part of
-- the repository's own code. Common/Fixed.antt gives the scalars of the example `scalar_linear`.
use adaptive_lio.Common.{ℕ, Bool, Option, some}
use adaptive_lio.Common.Fixed.{Fixed, decimal, fixed_double}
use adaptive_lio.Imu.Axes.{Vec3}

-- `Sophus::SE3`, which is made of a rotation and a translation.
pub record Se3 (M : Type 0) (R : Type 0) : Type 0 where
  pub so3 : R
  pub translation : M

pub record Linear (D : Type 0) : Type 1 where
  pub Matrix : Type 0
  pub So3 : Type 0
  pub of_vec3 : Vec3 D → Matrix
  -- `Zero(rows, columns)` and `Identity(size)`.
  pub zero : ℕ → ℕ → Matrix
  pub identity : ℕ → Matrix
  pub add : Matrix → Matrix → Matrix
  pub sub : Matrix → Matrix → Matrix
  pub mul : Matrix → Matrix → Matrix
  pub neg : Matrix → Matrix
  pub scale : D → Matrix → Matrix
  pub transpose : Matrix → Matrix
  pub inverse : Matrix → Matrix
  -- `m.block<r, c>(i, j) = b`, and the block that is read.
  pub set_block : ℕ → ℕ → Matrix → Matrix → Matrix
  pub block : ℕ → ℕ → ℕ → ℕ → Matrix → Matrix
  -- The rows of `a` above those of `b`.
  pub stack : Matrix → Matrix → Matrix
  -- `asDiagonal()`, and `m.diagonal() << v`.
  pub as_diagonal : Matrix → Matrix
  pub set_diagonal : Matrix → Matrix → Matrix
  pub cross : Matrix → Matrix → Matrix
  pub dot : Matrix → Matrix → D
  pub norm : Matrix → D
  pub determinant : Matrix → D
  pub all_finite : Matrix → Bool
  -- Some coefficient is below zero.
  pub any_negative : Matrix → Bool
  -- The smallest eigenvalue by `SelfAdjointEigenSolver`, `none` if it did not succeed.
  pub min_eigenvalue : Matrix → Option D
  -- Whether `LLT` succeeds.
  pub llt : Matrix → Bool
  -- `LDLT`: its `solve` if it succeeded and the matrix is positive.
  pub ldlt : Matrix → Option (Matrix → Matrix)
  pub so3_identity : So3
  pub so3_mul : So3 → So3 → So3
  pub so3_inverse : So3 → So3
  pub so3_exp : Matrix → So3
  pub so3_log : So3 → Matrix
  pub so3_matrix : So3 → Matrix
  pub hat : Matrix → Matrix
  -- `SE3::matrix().allFinite()`.
  pub se3_finite : Se3 Matrix So3 → Bool
  pub se3_mul : Se3 Matrix So3 → Se3 Matrix So3 → Se3 Matrix So3
  pub se3_inverse : Se3 Matrix So3 → Se3 Matrix So3
  pub se3_apply : Se3 Matrix So3 → Matrix → Matrix
  -- `SE3` of a quaternion interpolated by `slerp` between two rotations.
  pub slerp : D → So3 → So3 → So3
  pub to_vec3 : Matrix → Vec3 D

-- A concrete one for the examples: every matrix is one number and every rotation the identity.
abbrev pub scalar_linear : Linear Fixed
scalar_linear =
    let d = fixed_double in
    record {
      Matrix = Fixed;
      So3 = Unit;
      of_vec3 = λ v. v.x;
      zero = λ i j. decimal 0 0;
      identity = λ n. decimal 1 0;
      add = d.add;
      sub = d.sub;
      mul = d.mul;
      neg = d.neg;
      scale = d.mul;
      transpose = λ m. m;
      inverse = λ m. d.div (decimal 1 0) m;
      set_block = λ i j m b. m;
      block = λ i j r c m. m;
      stack = λ a b. a;
      as_diagonal = λ m. m;
      set_diagonal = λ m v. m;
      cross = λ a b. decimal 0 0;
      dot = d.mul;
      norm = d.abs;
      determinant = λ m. m;
      all_finite = d.is_finite;
      any_negative = λ m. d.lt m (decimal 0 0);
      min_eigenvalue = some;
      llt = λ m. d.lt (decimal 0 0) m;
      ldlt = λ m. some (λ b. d.div b m);
      so3_identity = tt;
      so3_mul = λ a b. tt;
      so3_inverse = λ a. tt;
      so3_exp = λ v. tt;
      so3_log = λ r. decimal 0 0;
      so3_matrix = λ r. decimal 1 0;
      hat = λ m. decimal 0 0;
      se3_finite = λ p. d.is_finite p.translation;
      se3_mul = λ a b. record { so3 = tt; translation = d.add a.translation b.translation };
      se3_inverse = λ a. record { so3 = tt; translation = d.neg a.translation };
      se3_apply = λ a v. d.add a.translation v;
      slerp = λ a p q. tt;
      to_vec3 = λ m. record { x = m; y = m; z = m };
    }
