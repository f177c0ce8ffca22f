-- ===== src/Api/Inventory.antt =====
-- The inventory rows of web/src/api.ts, as far as the wizards read them, and `sourceVMID`. An ID is
-- the text that `String(id)` gives.
pub mod Identity
use prox_back.Prelude.{
  ℕ, not, List, [], ◌∷◌, Option, none, some, ◌&&◌, ◌==◌, if◌then◌else◌, is_empty, all,
}
use prox_back.Js.Text.{Text}
use prox_back.Js.Number.{is_digit, scan_digits}

-- `CachedVM`.
pub record CachedVm : Type 0 where
  pub host_id : Text
  pub vmid : ℕ
  pub name : Text
  pub node : Text

pub record Host : Type 0 where
  pub id : Text
  pub name : Text

pub record Agent : Type 0 where
  pub id : Text
  pub hostname : Text

pub data SourceKind : Type 0 where
  vm_source agent_source : SourceKind

-- What a restore reads of a `Backup`; of a disk, its name.
pub record Backup : Type 0 where
  pub id : Text
  pub source_kind : SourceKind
  pub source_id : Text
  pub host_id : Option Text
  pub node : Option Text
  pub disks : List Text

-- `text.slice(text.lastIndexOf('_') + 1)`, if there is an underscore.
unfoldable pub after_underscore : Text → Option Text
after_underscore [] = none
after_underscore (c ∷ s) =
    let rest = after_underscore s in
    elim rest [ some tail ↦ some tail | none ↦ if c == b'_' then some s else none ]

-- The number of a text of digits.
unfoldable pub digits_of : Text → Option ℕ
digits_of tail =
    if not (is_empty tail) && all is_digit tail then some (scan_digits 0 0 tail).value else none

-- `sourceVMID`, for numbers that a double holds exactly.
unfoldable pub source_vmid : Text → Option ℕ
source_vmid text = elim (after_underscore text) [ none ↦ none | some tail ↦ digits_of tail ]
