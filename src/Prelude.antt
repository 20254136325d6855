-- ===== src/Prelude.antt =====
-- Names that every module shares: the libraries', passed on, and those of the children.
mod Bools
mod Lists
mod Bytes
mod Int
mod Errors
pub mod Tables
pub mod Results
pub mod Sorting
pub use Bools.*
pub use Lists.*
unfoldable pub use Lists.{update_where, first_by}
unfoldable pub use Bytes.{teq, tlt}
pub use Bytes.{Text, text, teq_iff, teq_refl, teq-false, tlt_irrefl, tlt_trans, tlt_total}
pub use Errors.*
pub use Int.{ℤ, pos, negsuc, pos_part, neg_part, ltz, eqz, ltz_lem, eqz_iff}
pub use Prim.Native.Nat.{ℕ, zero, suc, ◌+◌, ◌-◌, ◌*◌, ◌/◌, ◌%◌, ◌^◌, ◌≤◌, ◌<◌}
pub use Prim.Native.String.{String}
pub use mathlib.Core.Path.{◌≡◌, refl, sym, ap, ◌∙◌, subst, fun_ext}
pub use mathlib.Core.Logic.{◌≢◌, ◌↔◌, ◌⊎◌, inl, inr}
pub use mathlib.Core.Bool.{Bool, true, false, not, ◌&&◌, ◌||◌}
pub use mathlib.Core.Option.{Option, none, some}
pub use mathlib.Core.List.{List, [], ◌∷◌, ◌++◌, map}
pub use native.Mathlib.Omega.{arith}
