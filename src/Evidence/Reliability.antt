-- ===== src/Evidence/Reliability.antt =====
-- backend/domain/evidence/reliability.go. The constants are the bit patterns of the source's decimal
-- literals; sums and products are those of the hardware, a parameter.
use magi_system.Prelude.{
  ℕ, Float64, FloatOps, false, Option, none, some, ◌≡◌, refl, String, lt_float, eq_float,
  float_zero, float_one, clamp_unit, clamp_unit_bounds, if◌then◌else◌, arith, bounds_order,
}
use magi_system.Entity.Evidence.{ReliabilityScore}

-- entity.ToolSource
pub data ToolSource : Type 0 where
  plugin local knowledge workflow coderunner mcp : ToolSource
  other_source : String → ToolSource

abbrev float : ℕ → Float64
float b = record { bits = b }

abbrev pub score_10 : Float64
score_10 = float 0x3fb999999999999a

abbrev pub score_50 : Float64
score_50 = float 0x3fe0000000000000

abbrev pub score_60 : Float64
score_60 = float 0x3fe3333333333333

abbrev pub score_70 : Float64
score_70 = float 0x3fe6666666666666

abbrev pub score_75 : Float64
score_75 = float 0x3fe8000000000000

abbrev pub score_80 : Float64
score_80 = float 0x3fe999999999999a

abbrev pub score_85 : Float64
score_85 = float 0x3feb333333333333

abbrev pub score_90 : Float64
score_90 = float 0x3feccccccccccccd

abbrev pub score_95 : Float64
score_95 = float 0x3fee666666666666

abbrev pub weight_base : Float64
weight_base = float 0x3fd6666666666666

abbrev pub weight_directness : Float64
weight_directness = float 0x3fd0000000000000

abbrev pub weight_recency : Float64
weight_recency = float 0x3fc3333333333333

abbrev pub weight_corroboration : Float64
weight_corroboration = float 0x3fc3333333333333

abbrev pub weight_extraction : Float64
weight_extraction = float 0x3fb999999999999a

abbrev base_of_source : ToolSource → Float64
base_of_source local = score_90
base_of_source knowledge = score_85
base_of_source coderunner = score_95
base_of_source plugin = score_75
base_of_source workflow = score_80
base_of_source _ = score_70

unfoldable pub directness_from_source : ToolSource → Float64
directness_from_source local = float_one
directness_from_source coderunner = float_one
directness_from_source plugin = score_80
directness_from_source workflow = score_70
directness_from_source knowledge = score_60
directness_from_source _ = score_70

pub record ReliabilityInput : Type 0 where
  pub source_type : ToolSource
  pub explicit_reliability : Option Float64
  pub directness : Float64
  pub recency : Float64
  pub corroboration_count : ℕ
  pub extraction_confidence : Float64

-- `if x == 0 { x = d }`
or_default : Float64 → Float64 → Float64
or_default x d = if eq_float x float_zero then d else x

abbrev explicit_or : Option Float64 → Float64 → Float64
explicit_or none base = base
explicit_or (some r) base = r

module _ (ops : FloatOps) where
  open ops use {add, mul, of_int}

  -- `0.5 + float64(count)*0.1`, at most 1.
  unfoldable pub corroboration_of : ℕ → Float64
  corroboration_of count =
      let corr = add score_50 (mul (of_int count) score_10) in
      if lt_float float_one corr then float_one else corr

  -- The weighted sum of the five modifiers, before it is clamped.
  weighted_sum : Float64 → Float64 → Float64 → Float64 → Float64 → Float64
  weighted_sum base dir rec corr ext =
      add
        (add (add (add (mul base weight_base) (mul dir weight_directness)) (mul rec weight_recency))
          (mul corr weight_corroboration))
        (mul ext weight_extraction)

  unfoldable pub compute_reliability : ReliabilityInput → ReliabilityScore
  unfolding corroboration_of weighted_sum or_default clamp_unit
  compute_reliability input =
      let b = explicit_or input.explicit_reliability (base_of_source input.source_type) in
      let dir = or_default input.directness score_70 in
      let rec = or_default input.recency score_50 in
      let corr = corroboration_of input.corroboration_count in
      let ext = or_default input.extraction_confidence score_80 in
      record {
        base = b;
        directness = dir;
        recency = rec;
        corroboration = corr;
        extraction = ext;
        final = clamp_unit (weighted_sum b dir rec corr ext);
      }

  unfoldable pub full_reliability_resolver : ToolSource → Option Float64 → ReliabilityScore
  unfolding compute_reliability directness_from_source
  full_reliability_resolver source explicit = compute_reliability (record {
    source_type = source;
    explicit_reliability = explicit;
    directness = directness_from_source source;
    recency = score_50;
    corroboration_count = 0;
    extraction_confidence = score_80;
  })

  unfoldable pub recompute_final : ReliabilityScore → ReliabilityScore
  unfolding weighted_sum clamp_unit
  recompute_final s = record s {
    final = clamp_unit (weighted_sum s.base s.directness s.recency s.corroboration s.extraction);
  }

  -- Whatever the arithmetic, a computed score's final value is neither below 0 nor above 1, its
  -- corroboration is not above 1, and recomputing the final value changes nothing.
  pub compute_reliability-bounds :
      (input : ReliabilityInput)
      → (lt_float (compute_reliability input).final float_zero ≡ false)
        × (lt_float float_one (compute_reliability input).final ≡ false)
        × (lt_float float_one (compute_reliability input).corroboration ≡ false)
        × (recompute_final (compute_reliability input) ≡ compute_reliability input)
  compute_reliability-bounds input = (
    unfold compute_reliability in (clamp_unit_bounds _).0,
    unfold compute_reliability in (clamp_unit_bounds _).1,
    unfold compute_reliability corroboration_of in ground (arith, bounds_order),
    unfold compute_reliability recompute_final in refl,
  )
