-- ===== src/Examples/UpdateExamples.antt =====
-- Tests of src/update.rs.
use zerem.Prelude.{Bool, true, false, none, some, [], ◌∷◌, map, is_nil, not, ◌≡◌, refl}
use zerem.Prelude.Text.{Text, codes}
use zerem.Update.{
  semver, is_newer, Feed, Available, unsigned, newest, Disk, Outside, installed, not_signed,
  fetch_and_apply,
}
use zerem.Update.Installing.{Outcome, fetch_and_apply-Outcome}

tags : semver (codes " v2.0.1-rc1") ≡ semver (codes "2.0.1+build7")
unfolding semver
tags = refl

abbrev newer : Text → Bool
unfolding is_newer
newer offer = is_newer offer (codes "1.9.9")

compared :
    map newer (codes "v2" ∷ codes "1.10.0" ∷ codes "1.9.9" ∷ codes "garbage" ∷ [])
    ≡ true ∷ true ∷ false ∷ false ∷ []
unfolding newer
compared = refl

abbrev feed : Feed
feed = record {
  version = some (codes "v1.2.0");
  platform = some (record { url = some (codes "u"); signature = some (codes "s") });
}

abbrev found : Available
found = record { version = codes "v1.2.0"; url = codes "u"; signature = codes "s" }

not_without_signature :
    newest
      (some (record feed { platform = some (record { url = some (codes "u"); signature = none }) }))
      (codes "1.1.0")
    ≡ unsigned
unfolding newest
not_without_signature = refl

-- A network that delivers two bytes, and a check that asks for a signature.
abbrev outside : Outside
outside = record {
  download = λ url. some (1 ∷ 2 ∷ []);
  is_signed = λ bytes signature. not (is_nil signature);
  write_ok = true;
  partial = none;
  replace_ok = true;
  remove_ok = true;
}

abbrev disk : Disk
disk = record { program = 9 ∷ []; staged = none }

replaced :
    fetch_and_apply outside found disk ≡ (record { program = 1 ∷ 2 ∷ []; staged = none }, installed)
unfolding fetch_and_apply
replaced = refl

refused : fetch_and_apply outside (record found { signature = [] }) disk ≡ (disk, not_signed)
unfolding fetch_and_apply
refused = refl

fetch_and_apply-Outcome_example : Outcome outside found disk (fetch_and_apply outside found disk)
fetch_and_apply-Outcome_example = fetch_and_apply-Outcome outside found disk
