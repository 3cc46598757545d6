-- ===== src/Report.antt =====
-- pkg/report: findings, as far as they are merged. The entries of the KEV catalog, the EPSS scores
-- (floating-point numbers) and the VEX statements are parameters.
pub mod Forest
pub mod Merge
pub mod Walk
pub mod Details
pub mod Build
use sapper.Base.{Text, List, Option}

pub record Product (V : Type 0) : Type 0 where
  pub name : Text
  pub path : List Text
  pub vex : Option V

pub record Finding (K S V : Type 0) : Type 0 where
  pub id : Text
  pub aliases : List Text
  pub summary : Text
  pub severity : Text
  pub kev : Option K
  pub epss : Option S
  pub packages : List Text
  pub products : List (Product V)
  pub suppressed : List (Product V)
