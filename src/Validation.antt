-- ===== src/Validation.antt =====
-- internal/webhook/v1alpha1: the admission of the three policies themselves. ValidateCreate and
-- ValidateUpdate validate the new object; ValidateDelete accepts.
pub mod Laws
use kube_freeze_operator.Common.{
  ℕ, suc, String, Bool, true, false, not, ◌&&◌, Option, none, some, List, [], ◌∷◌, ltb, is_some,
  if◌then◌else◌,
}
use kube_freeze_operator.Common.Int.{pos, leb_ℤ}
use kube_freeze_operator.Common.Texts.{◌==◌}
use kube_freeze_operator.Common.Results.{Result, ok, err, guard, ◌>>=◌, ◌>>◌}
use kube_freeze_operator.Api.Specs.{WindowSpec}
use kube_freeze_operator.Api.Objects.{ChangeFreeze, MaintenanceWindow, FreezeException}
use kube_freeze_operator.External.{Library}

pub data ValidationError : Type 0 where
  invalid_timezone : String → ValidationError
  end_not_after_start active_to_not_after_from no_action no_window : ValidationError
  invalid_schedule invalid_duration : ℕ → ValidationError

pub data Event : Type 0 where
  creation update deletion : Event

-- `Timezone != nil && *Timezone != ""` and a zone that does not load is the failure.
abbrev pub zone_ok : Library → Option String → Bool
zone_ok lib none = true
zone_ok lib (some tz) = if not (tz == "") then lib.load_location tz else true

abbrev zone_text : Option String → String
zone_text none = ""
zone_text (some tz) = tz

unfoldable pub validate_change_freeze : Library → ChangeFreeze → Result ValidationError (Unit {0})
validate_change_freeze lib obj = do
  guard (zone_ok lib obj.spec.timezone) (invalid_timezone (zone_text obj.spec.timezone))
  guard (ltb obj.spec.start_time obj.spec.end_time) end_not_after_start

unfoldable pub validate_freeze_exception : FreezeException → Result ValidationError (Unit {0})
validate_freeze_exception obj = do
  guard (ltb obj.spec.active_from obj.spec.active_to) active_to_not_after_from
  elim obj.spec.allow [ [] ↦ err no_action | a ∷ as_ ↦ ok tt ]

-- The loop over the windows, from the index `i`.
unfoldable pub validate_windows : Library → ℕ → List WindowSpec → Result ValidationError (Unit {0})
validate_windows lib i [] = ok tt
validate_windows lib i (w ∷ ws) =
    let rest = validate_windows lib (suc i) ws in
    if not (is_some (lib.parse_schedule w.schedule))
    then err (invalid_schedule i)
    else if leb_ℤ w.duration (pos 0)
    then err (invalid_duration i)
    else rest

unfoldable pub validate_maintenance_window :
    Library → MaintenanceWindow → Result ValidationError (Unit {0})
validate_maintenance_window lib obj =
    if not (zone_ok lib (some obj.spec.timezone))
    then err (invalid_timezone obj.spec.timezone)
    else elim obj.spec.windows [ [] ↦ err no_window | w ∷ ws ↦ validate_windows lib 0 (w ∷ ws) ]

-- ValidateCreate, ValidateUpdate and ValidateDelete of the three validators.
unfoldable pub admit_change_freeze :
    Library → Event → ChangeFreeze → Result ValidationError (Unit {0})
admit_change_freeze lib creation obj = validate_change_freeze lib obj
admit_change_freeze lib update obj = validate_change_freeze lib obj
admit_change_freeze lib deletion obj = ok tt

unfoldable pub admit_freeze_exception : Event → FreezeException → Result ValidationError (Unit {0})
admit_freeze_exception creation obj = validate_freeze_exception obj
admit_freeze_exception update obj = validate_freeze_exception obj
admit_freeze_exception deletion obj = ok tt

unfoldable pub admit_maintenance_window :
    Library → Event → MaintenanceWindow → Result ValidationError (Unit {0})
admit_maintenance_window lib creation obj = validate_maintenance_window lib obj
admit_maintenance_window lib update obj = validate_maintenance_window lib obj
admit_maintenance_window lib deletion obj = ok tt
