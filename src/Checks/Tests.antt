-- ===== src/Checks/Tests.antt =====
-- Concrete runs of checks, and what the theorems of this component give for them.
use Prim.Native.String.{count}
use internal_package_contrac.Shared.{
  String, Bool, true, false, none, some, [], ◌∷◌, ◌≡◌, ◌⊎◌, refl, leb,
}
use internal_package_contrac.ApiContract.Evidence.{no_release}
use internal_package_contrac.ApiContract.Semver.{
  Version, parse_version, version_pattern, version_suffix,
}
use internal_package_contrac.ApiContract.Changesets.{declared_level_from_changesets}
use internal_package_contrac.Shared.Trim.{trim}
use internal_package_contrac.Shared.Decimals.{number}
use internal_package_contrac.Shared.Regex.{is_digit, is_any, is_space, at_end, one, star, plus}
use internal_package_contrac.Surface.Types.{Surface}
use internal_package_contrac.Surface.Classify.{classify_surface}
use internal_package_contrac.Surface.Run.{
  Package, SurfaceBaseline, absent, SurfaceEvidence, missing_baseline, checked, run_surface_check,
  compare_surface, is_empty,
}
use internal_package_contrac.Surface.Run.Required.{Requires}
use internal_package_contrac.Surface.Run.Update.{run_surface_check-committed}
use internal_package_contrac.Checks.Shared.{
  PolicyResult, CheckEvidence, fail, crash_line, first_line, includes, says_nothing_usable,
  led_by_error,
}
use internal_package_contrac.Checks.Shared.Headline.{headlined, NeedsNoHeadline, led_by_error-cases}
use internal_package_contrac.Checks.SurfaceContract.Verdict.{PassesWhere, surface_gate_iff}

abbrev by_length : String → String → Bool
by_length a b = leb (count a) (count b)

-- A tool that died with an error before it printed anything.
abbrev died : CheckEvidence Bool
died = record {
  status = "completed";
  spawn_error_code = none;
  spawn_error = none;
  stdout = "";
  stderr = "TypeError: boom";
  output = none;
}

abbrev unread_output : CheckEvidence Bool → PolicyResult
unread_output result = record {
  outcome = fail;
  rationale = "Lint output could not be parsed as JSON.";
}

led_by_error-cases_example :
    ((led_by_error "Lint" unread_output died).outcome ≡ fail)
    × (((led_by_error "Lint" unread_output died ≡ unread_output died)
          × NeedsNoHeadline "Lint" unread_output died)
        ⊎ ((crash : String) × (crash_line died ≡ some crash)
            × ((unread_output died).outcome ≡ fail)
            × (says_nothing_usable (first_line (unread_output died).rationale) ≡ true)
            × (includes (first_line (unread_output died).rationale) crash ≡ false)
            × (led_by_error "Lint" unread_output died ≡ headlined "Lint" unread_output died crash)))
led_by_error-cases_example = led_by_error-cases "Lint" unread_output died

abbrev tool : Surface
tool = record {
  cli = ("tool", record { exit_code = some 0; help = "Usage: tool [--json]" }) ∷ [];
  schemas = [];
  action = none;
}

abbrev bumped : Package
bumped = record {
  name = "tool";
  version = "1.3.0";
  surface = record tool { cli = [] };
  changesets = some (("a.md", "---\n\"tool\": major\n---\n") ∷ []);
}

abbrev baseline : SurfaceBaseline
baseline = record { package_name = "tool"; package_version = "1.2.3"; surface = tool }

abbrev v_1_2_3 : Version
v_1_2_3 = record { major = 1; minor = 2; patch = 3 }

abbrev v_1_3_0 : Version
v_1_3_0 = record { major = 1; minor = 3; patch = 0 }

old_version : parse_version "1.2.3" ≡ some v_1_2_3
unfolding parse_version version_pattern version_suffix trim number is_digit is_any is_space at_end
    one star plus
old_version = refl

new_version : parse_version "1.3.0" ≡ some v_1_3_0
unfolding parse_version version_pattern version_suffix trim number is_digit is_any is_space at_end
    one star plus
new_version = refl

abbrev evidence : SurfaceEvidence
evidence =
    compare_surface by_length bumped (declared_level_from_changesets bumped.changesets bumped.name)
      baseline v_1_2_3

surface_gate_iff_example :
    Requires
      (classify_surface by_length tool (record tool { cli = [] }))
      false
      evidence.required_level
    × PassesWhere by_length bumped baseline v_1_2_3 v_1_3_0 evidence
surface_gate_iff_example =
    surface_gate_iff by_length bumped true baseline v_1_2_3 v_1_3_0 evidence none new_version
      old_version (run_surface_check-committed by_length bumped true baseline v_1_2_3 old_version)

abbrev unguarded : Package
unguarded = record bumped { surface = tool }

abbrev missing : SurfaceEvidence
missing = record {
  current_version = "1.3.0";
  status = missing_baseline;
  changes = [];
  required_level = no_release;
  minimum_required_version = none;
  baseline_version = none;
  declared = declared_level_from_changesets unguarded.changesets "tool";
  satisfied = false;
}

unguarded-missing : run_surface_check by_length true unguarded absent ≡ checked missing none
unfolding run_surface_check is_empty
unguarded-missing = refl

unguarded-guarded : is_empty unguarded.surface ≡ false
unfolding is_empty
unguarded-guarded = refl
