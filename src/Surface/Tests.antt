-- ===== src/Surface/Tests.antt =====
-- Concrete surfaces, and what the theorems of this component give for them.
use Prim.Native.String.{count}
use internal_package_contrac.Shared.{
  arith, any, ◌===◌, string_Eq, string_Eq, String, Bool, true, false, Option, none, some, [], ◌∷◌,
  ◌≡◌, refl, leb, Memᴰ, All,
}
use internal_package_contrac.Shared.Dicts.{get, set, set_of}
use internal_package_contrac.Shared.Json.{Json, text, object, field, no_fields}
use internal_package_contrac.ApiContract.Evidence.{no_release}
use internal_package_contrac.ApiContract.Semver.{
  Version, parse_version, version_pattern, version_suffix, compare_versions,
}
use internal_package_contrac.Shared.Trim.{trim}
use internal_package_contrac.Surface.Types.{
  CliSurface, ActionSurface, Surface, SurfaceChange, compatible,
}
use internal_package_contrac.Surface.Classify.{
  classify_surface, surface_changes, concat_map, cli_changes, schema_changes, action_changes,
}
use internal_package_contrac.Surface.Classify.Kept.{
  IsHarmless, KeepsFlags, KeepsAction, nothing_breaking-kept,
}
use internal_package_contrac.Surface.Classify.Self.{classify_surface_itself}
use internal_package_contrac.Surface.Classify.Widening.{widens-compatible}
use internal_package_contrac.Surface.Stable.{sort_keys}
use internal_package_contrac.Surface.Classify.Self.Sorted.{IsStable}
use internal_package_contrac.Shared.Sorting.{IsTotalPreorder}
use internal_package_contrac.Surface.Run.{
  Package, SurfaceBaseline, absent, committed, SurfaceEvidence, compared, checked,
  run_surface_check, run_surface_update, ended, updated, current, update_committed, baseline_of,
  is_empty,
}
use internal_package_contrac.Surface.Run.Satisfied.{run_surface_check-first}
use internal_package_contrac.Surface.Run.Update.{
  MovesForward, run_surface_update-forward, update_then_check,
}
use internal_package_contrac.Shared.{template}
use internal_package_contrac.Shared.Sorting.{sort, insert}
use internal_package_contrac.Shared.Regex.{
  is_any, is_space, at_end, one, literal, is_digit, star, plus, starts_with,
}
use internal_package_contrac.Shared.Decimals.{decimal, number}
use internal_package_contrac.Shared.Json.{quoted, stringify}
use internal_package_contrac.Surface.Cli.{classify_cli, exit_code_changes, flag_changes, flags_of}
use internal_package_contrac.Surface.Action.{
  classify_action, classify_input, new_inputs, old_inputs,
}
use internal_package_contrac.Surface.Flatten.{flatten_schema}
use internal_package_contrac.Surface.Schema.{
  classify_schema, add_reports, pointer_report, entry_added, entry_removed, fresh_root,
  property_roots, value_changed,
}

abbrev by_length : String → String → Bool
by_length a b = leb (count a) (count b)

abbrev tool : Surface
tool = record {
  cli = ("tool", record { exit_code = some 0; help = "Usage: tool [--json]" }) ∷ [];
  schemas = ("./schema.json", object (field "type" (text "object") no_fields)) ∷ [];
  action = some (record {
    inputs = ("mode", record { required = false; default = some "fast" }) ∷ [];
    outputs = "report" ∷ [];
  });
}

-- One more flag and one more output.
abbrev wider_tool : Surface
wider_tool = record tool {
  cli = ("tool", record { exit_code = some 0; help = "Usage: tool [--json] [--quiet]" }) ∷ [];
}

abbrev added_flag : SurfaceChange
added_flag = record {
  id = "cli:tool:--quiet";
  kind = "cli-flag-added";
  impact = compatible;
  widens = true;
  explanation = "`tool` now documents --quiet.";
}

wider_tool-changes : classify_surface by_length tool wider_tool ≡ added_flag ∷ []
unfolding classify_surface surface_changes concat_map cli_changes schema_changes action_changes sort
    insert set_of get set literal is_digit star plus template starts_with decimal quoted stringify
    classify_cli exit_code_changes flag_changes flags_of classify_action classify_input new_inputs
    old_inputs classify_schema flatten_schema add_reports pointer_report entry_added entry_removed
    fresh_root property_roots value_changed
wider_tool-changes = refl

wider_tool-IsHarmless : All IsHarmless (classify_surface by_length tool wider_tool)
wider_tool-IsHarmless = rw wider_tool-changes (refl, tt)

nothing_breaking-kept_example :
    ((name : String) (was : CliSurface)
      → get name tool.cli ≡ some was
      → (now : CliSurface) × (get name wider_tool.cli ≡ some now)
        × (was.exit_code ≡ now.exit_code)
        × KeepsFlags was now)
    × ((key : String) (was : Json)
        → get key tool.schemas ≡ some was
        → (now : Json) × (get key wider_tool.schemas ≡ some now))
    × ((was : ActionSurface)
        → tool.action ≡ some was
        → (now : ActionSurface) × (wider_tool.action ≡ some now) × KeepsAction was now)
nothing_breaking-kept_example =
    nothing_breaking-kept by_length tool wider_tool wider_tool-IsHarmless

added_flag-reported : Memᴰ added_flag (classify_surface by_length tool wider_tool)
added_flag-reported = rw wider_tool-changes (Memᴰ.head refl)

widens-compatible_example : added_flag.impact ≡ compatible
widens-compatible_example =
    widens-compatible by_length tool wider_tool added_flag added_flag-reported refl

classify_surface_itself_example : classify_surface by_length tool tool ≡ []
classify_surface_itself_example = classify_surface_itself by_length tool (tt, tt)

abbrev bumped : Package
bumped = record { name = "tool"; version = "1.3.0"; surface = wider_tool; changesets = none }

abbrev old_baseline : SurfaceBaseline
old_baseline = record { package_name = "tool"; package_version = "1.2.3"; surface = tool }

abbrev v_1_2_3 : Version
v_1_2_3 = record { major = 1; minor = 2; patch = 3 }

abbrev v_1_3_0 : Version
v_1_3_0 = record { major = 1; minor = 3; patch = 0 }

readable_1_2_3 : parse_version "1.2.3" ≡ some v_1_2_3
unfolding parse_version version_pattern version_suffix trim number is_digit is_any is_space at_end
    one star plus
readable_1_2_3 = refl

readable_1_3_0 : parse_version "1.3.0" ≡ some v_1_3_0
unfolding parse_version version_pattern version_suffix trim number is_digit is_any is_space at_end
    one star plus
readable_1_3_0 = refl

abbrev updated_text : String
updated_text =
    "Surface baseline updated to version 1.3.0. Review .repo-contract/surface-contract/baseline.json and commit."

bumped-updates :
    run_surface_update by_length bumped (committed old_baseline)
    ≡ ended updated updated_text (some (baseline_of by_length bumped))
unfolding run_surface_update update_committed compare_versions template
bumped-updates = rw (readable_1_3_0, readable_1_2_3, run_surface_update) refl

run_surface_update-forward_example :
    (updated ≡ updated)
    × (baseline_of by_length bumped ≡ baseline_of by_length bumped)
    × ((version : Version) × (parse_version bumped.version ≡ some version)
        × MovesForward by_length bumped (committed old_baseline) version)
run_surface_update-forward_example =
    run_surface_update-forward by_length bumped (committed old_baseline) updated updated_text
      (baseline_of by_length bumped) bumped-updates

by_length-IsTotalPreorder : IsTotalPreorder by_length
by_length-IsTotalPreorder = record {
  total = λ a b h. ground arith;
  trans = λ a b c h h'. ground arith;
}

-- Two commands and a schema whose keys are out of order, which no baseline guards yet.
abbrev unguarded : Package
unguarded = record {
  name = "tool";
  version = "1.3.0";
  surface = record {
    cli =
        ("tool-two", record { exit_code = some 0; help = "Usage: tool-two" })
        ∷ ("tool", record { exit_code = some 0; help = "Usage: tool" })
        ∷ [];
    schemas =
        (
          "./schema.json",
          object (
              field "type" (text "object")
                (field "$id" (text "tool") (field "title" (text "A tool") no_fields))),
        )
        ∷ [];
    action = none;
  };
  changesets = none;
}

unguarded-IsStable : IsStable by_length unguarded.surface
unfolding flatten_schema sort_keys insert
unguarded-IsStable = record {
  commands = (((λ e. cc), tt), (tt, tt));
  schema_keys = (tt, tt);
  inputs = tt;
  entries = (refl, tt);
}

unguarded-updates :
    run_surface_update by_length unguarded absent
    ≡ ended updated updated_text (some (baseline_of by_length unguarded))
unfolding run_surface_update is_empty template
unguarded-updates = rw (readable_1_3_0, run_surface_update) refl

update_then_check_example :
    ((e : SurfaceEvidence) × (run_surface_check by_length true unguarded
          (committed (baseline_of by_length unguarded))
        ≡ checked e none)
      × (e.status ≡ compared)
      × (e.changes ≡ [])
      × (e.required_level ≡ no_release)
      × (e.satisfied ≡ true))
    × ((again : String) × (run_surface_update by_length unguarded
            (committed (baseline_of by_length unguarded))
          ≡ ended current again none))
update_then_check_example =
    update_then_check by_length unguarded absent updated updated_text
      (baseline_of by_length unguarded) true by_length-IsTotalPreorder unguarded-IsStable
      unguarded-updates

run_surface_check-first_example :
    ((e : SurfaceEvidence) (written : SurfaceBaseline)
      → run_surface_check by_length true bumped absent ≡ checked e (some written)
      → (written ≡ baseline_of by_length bumped)
        × (is_empty bumped.surface ≡ false)
        × (true ≡ false))
    × ((e : SurfaceEvidence) (written : Option SurfaceBaseline)
        → true ≡ true
        → run_surface_check by_length true bumped absent ≡ checked e written
        → (written ≡ none) × (e.satisfied ≡ is_empty bumped.surface))
    × ((baseline : SurfaceBaseline) (e : SurfaceEvidence) (written : Option SurfaceBaseline)
        → run_surface_check by_length true bumped (committed baseline) ≡ checked e written
        → written ≡ none)
run_surface_check-first_example = run_surface_check-first by_length true bumped

-- An empty schema has no entry, so that a constraint which is one is not seen.
empty_constraint_unseen :
    classify_schema "./schema.json" by_length
      (object no_fields)
      (object (field "not" (object no_fields) no_fields))
    ≡ []
unfolding classify_schema flatten_schema add_reports sort insert set_of template
empty_constraint_unseen = refl

-- A default whose keys are out of order differs from itself as it is read back.
default_reported :
    let schema = object (
      field "default"
        (object (field "zed" (text "1") (field "a" (text "2") no_fields)))
        no_fields) in
    any
      (λ c. c.kind === "schema-docs-changed")
      (classify_schema "./schema.json" by_length (sort_keys by_length schema) schema)
    ≡ true
unfolding classify_schema flatten_schema sort_keys insert add_reports sort set_of template stringify
    quoted set
default_reported = refl
