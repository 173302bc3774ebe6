-- ===== src/ModelStore/Tests.antt =====
-- Runs of the model store on small uploads, and the theorems at concrete inputs.
use ia_dev_lab.Base.{
  ◌++◌, ℕ, String, true, ◌≡◌, refl, none, some, List, [], ◌∷◌, ◌<◌, arith, Result, ok, err,
  overflow_error, duplicate_version, All, find, select, update, count, ◌==◌, nat_equality,
  if◌then◌else◌,
}
use ia_dev_lab.Json.{end, canonical_fields, canonical_json, insert_field}
use ia_dev_lab.ModelStore.Schema.{
  Platform, LifecycleStatus, ModelRow, VersionRow, Store, of_model, has_version,
}
use ia_dev_lab.ModelStore.Reads.{ModelVersion, get, list_versions, resolve, activation_history}
use ia_dev_lab.ModelStore.Register.{bytes, register, assign_version}
use ia_dev_lab.ModelStore.Register.Outcome.{RegisteredAs, register-total}
use ia_dev_lab.ModelStore.Activate.{activate}
use ia_dev_lab.ModelStore.Activate.Outcome.{Selected, activate-Selected}
use ia_dev_lab.ModelStore.Invariant.{StoreInv}
use ia_dev_lab.ModelStore.Steps.{
  StoreCall, registers, activates, store_step, store_run, new_store, Keeps, run-new_store-StoreInv,
  store_run-Keeps,
}
use ia_dev_lab.ModelStore.Versions.{Listed, list_versions-Listed, assign_version-next}
use ia_dev_lab.ModelStore.Service.{service_register}

store_program : Unit {0}
unfolding store_run store_step register activate get list_versions resolve activation_history
    assign_version service_register find select update count canonical_fields canonical_json
    insert_field
store_program = tt

-- A stand-in for the platform: names are stripped already and compared as they are.
abbrev short_digest : List ℕ → String
short_digest [] = "nothing"
short_digest (b ∷ bs) = if b == 1 then "one" else "more"

abbrev plain : Platform
plain = record { strip = λ s. s; casefold = λ s. s; sha256 = short_digest }

abbrev first_upload : StoreCall
first_upload =
    registers "model" (bytes (1 ∷ 2 ∷ []) ∷ bytes (3 ∷ []) ∷ []) none (some "first") end 5 true

abbrev second_upload : StoreCall
second_upload = registers "model" (bytes (7 ∷ []) ∷ []) none none end 6 true

abbrev two_versions : Store
two_versions = store_run plain 4 new_store (first_upload ∷ second_upload ∷ [])

abbrev version_of : Result ModelVersion → List ℕ
version_of (ok r) = r.version ∷ []
version_of (err e) = []

too_large :
    (register plain 2 "model"
      (bytes (1 ∷ 2 ∷ []) ∷ bytes (3 ∷ []) ∷ [])
      none
      none
      end
      7
      true
      two_versions).1
    ≡ two_versions
unfolding store_program
too_large = refl

taken :
    (register plain 4 "model" (bytes (9 ∷ []) ∷ []) (some 2) none end 7 true two_versions)
    ≡ (err (duplicate_version 2 "model"), two_versions)
unfolding store_program
taken = refl

third :
    version_of (register plain 4 "model" (bytes (9 ∷ []) ∷ []) none none end 7 true two_versions).0
    ≡ 3 ∷ []
unfolding store_program
third = refl

nothing_active : version_of (resolve plain "model" none two_versions.catalog) ≡ []
unfolding store_program
nothing_active = refl

-- The row of the first version.
abbrev first_row : VersionRow
first_row = record {
  normalized_name = "model";
  version = 1;
  status = LifecycleStatus.registered;
  artifact_digest = "one";
  metadata_json = end;
  created_at = 5;
}

two_versions-StoreInv : StoreInv plain two_versions
two_versions-StoreInv = run-new_store-StoreInv plain 4 (first_upload ∷ second_upload ∷ [])

run-new_store-StoreInv_example :
    StoreInv plain (store_run plain 4 new_store (first_upload ∷ activates "model" 1 7 ∷ []))
run-new_store-StoreInv_example =
    run-new_store-StoreInv plain 4 (first_upload ∷ activates "model" 1 7 ∷ [])

store_run-Keeps_example :
    Keeps two_versions (store_run plain 4 two_versions (activates "model" 2 8 ∷ first_upload ∷ []))
store_run-Keeps_example =
    store_run-Keeps plain 4 two_versions (activates "model" 2 8 ∷ first_upload ∷ [])
      two_versions-StoreInv

activate-Selected_example : Selected plain "model" 1 8 two_versions.catalog first_row
unfolding store_program
activate-Selected_example =
    activate-Selected plain "model" 1 8 two_versions first_row two_versions-StoreInv refl

register-total_example :
    RegisteredAs plain 4 "model"
      (bytes (9 ∷ []) ∷ [])
      (some 5)
      none
      end
      7
      true
      two_versions
      refl
      two_versions-StoreInv
      (9 ∷ [])
      1
      end
unfolding store_program
register-total_example =
    register-total plain 4 "model" (bytes (9 ∷ []) ∷ []) (some 5) none end 7 true two_versions refl
      two_versions-StoreInv (9 ∷ []) 1 end refl refl refl refl (omega arith) (omega arith) refl

abbrev one_version : Store
one_version = store_run plain 4 new_store (first_upload ∷ [])

-- A version beyond SQLite's integers leaves its file.
beyond_integers :
    service_register plain 4 "model"
      (bytes (9 ∷ []) ∷ [])
      (some 9223372036854775808)
      none
      end
      7
      true
      one_version
    ≡ (
      err overflow_error,
      record one_version {
        files = one_version.files ++ record { name = "more"; content = 9 ∷ [] } ∷ [];
      },
    )
unfolding store_program
beyond_integers = refl

abbrev model_row : ModelRow
model_row = record {
  normalized_name = "model";
  name = "model";
  description = some "first";
  created_at = 5;
}

list_versions-Listed_example :
    (answer : List ModelVersion) × (list_versions plain "model" two_versions.catalog ≡ ok answer)
    × Listed plain "model" two_versions.catalog answer
unfolding store_program
list_versions-Listed_example =
    list_versions-Listed plain "model" two_versions model_row two_versions-StoreInv refl

assign_version-next_example :
    (0 < assign_version none "model" two_versions.catalog)
    × All
        (λ v. v.version < assign_version none "model" two_versions.catalog)
        (select (of_model "model") two_versions.catalog.versions)
    × (count
          (has_version "model" (assign_version none "model" two_versions.catalog))
          two_versions.catalog.versions
        ≡ 0)
assign_version-next_example = assign_version-next "model" two_versions.catalog
