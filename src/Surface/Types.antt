-- ===== src/Surface/Types.antt =====
-- What a package promises besides its types (scripts/surface-contract/classify.ts): the records.
-- The keys of a record are in the order in which `Object.keys` gives them.
use internal_package_contrac.Shared.{ℕ, String, Bool, Option, List}
use internal_package_contrac.Shared.Json.{Json}

pub record CliSurface : Type 0 where
  pub exit_code : Option ℕ
  pub help : String

pub record ActionInput : Type 0 where
  pub required : Bool
  pub default : Option String

pub record ActionSurface : Type 0 where
  pub inputs : List (String × ActionInput)
  pub outputs : List String

pub record Surface : Type 0 where
  pub cli : List (String × CliSurface)
  pub schemas : List (String × Json)
  pub action : Option ActionSurface

pub data SurfaceImpact : Type 0 where
  breaking compatible : SurfaceImpact

pub record SurfaceChange : Type 0 where
  pub id : String
  pub kind : String
  pub impact : SurfaceImpact
  pub widens : Bool
  pub explanation : String
