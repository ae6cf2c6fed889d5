-- ===== src/Data/Probe.antt =====
-- internal/sizing/probe.go: the profile that a probe writes, and the hints that it replaces.
use Prim.Native.String.{◌++◌ as str_append}
use orchestrator_cli.Common.{String, Option, none, some, List, [], ◌∷◌, ◌==◌, if◌then◌else◌}
use orchestrator_cli.Common.Int.{ℤ, pos, ltb_ℤ}
use orchestrator_cli.Common.Float.{Float64}
use orchestrator_cli.App.Errors.{Error, plain, wrapped, Result, ok, err}
use orchestrator_cli.Config.Settings.{SizingProbeConfig, SizingHintsConfig}

pub record Profile (F : Type 0) : Type 0 where
  pub required_vram_gb : F
  pub peak_vram_gb : F
  pub model_parameters_b : F
  pub model_artifact_gb : F
  pub batch_size : ℤ
  pub gradient_accumulation_steps : ℤ
  pub precision : String
  pub optimizer : String
  pub expected_steps : ℤ

-- the error of a command, what os.ReadFile finds, and the JSON decoder
pub record ProbeTools (F : Type 0) : Type 0 where
  pub run : List String → Option Error
  pub read_file : String → Result String
  pub decode : String → Result (Profile F)

module _ {F : Type 0} (t : ProbeTools F) where
  abbrev decoded : String → Result (Profile F) → Result (Profile F)
  decoded path (ok p) = ok p
  decoded path (err e) = err (wrapped (str_append "parse sizing probe output " path) e)

  abbrev parsed : String → Result String → Result (Profile F)
  parsed path (ok content) = decoded path (t.decode content)
  parsed path (err e) = err (wrapped (str_append "read sizing probe output " path) e)

  abbrev ran : String → Option Error → Result (Profile F)
  ran path (some e) = err (wrapped "sizing probe command failed" e)
  ran path none = parsed path (t.read_file path)

  abbrev run_command : List String → Option Error
  run_command [] = none
  run_command (c ∷ args) = t.run (c ∷ args)

  unfoldable pub run_probe : SizingProbeConfig → Result (Profile F)
  run_probe p =
      if p.output == ""
      then err (plain "sizing.probe.output is required when sizing.probe.command is set")
      else ran p.output (run_command p.command)

-- `if n > 0 { old = n }`
abbrev int_over : ℤ → ℤ → ℤ
int_over n old = if ltb_ℤ (pos 0) n then n else old

-- `if s != "" { old = s }`
abbrev text_over : String → String → String
text_over s old = if s == "" then old else s

module _ {F : Type 0} ⦃f : Float64 F⦄ where
  -- the same on float64
  abbrev float_over : F → F → F
  float_over x old = if f.lt (f.of_int (pos 0)) x then x else old

  unfoldable pub apply_profile : SizingHintsConfig F → Profile F → SizingHintsConfig F
  apply_profile h p = record h {
    required_vram_gb = float_over p.required_vram_gb (float_over p.peak_vram_gb h.required_vram_gb);
    model_parameters_b = float_over p.model_parameters_b h.model_parameters_b;
    model_artifact_gb = float_over p.model_artifact_gb h.model_artifact_gb;
    batch_size = int_over p.batch_size h.batch_size;
    gradient_accumulation_steps =
        int_over p.gradient_accumulation_steps h.gradient_accumulation_steps;
    precision = text_over p.precision h.precision;
    optimizer = text_over p.optimizer h.optimizer;
    expected_steps = int_over p.expected_steps h.expected_steps;
  }
