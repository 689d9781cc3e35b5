-- ===== src/Exporter/Settings/Fallbacks.antt =====
-- What the settings of src/vllm_observer/exporter.py are in any environment.
use vllm_observer.Base.{◌≡◌, String, true, false, some, arith, eq_refl}
use vllm_observer.Base.Float.{Float}
use vllm_observer.Exporter.Settings.{
  Environment, Decimals, langfuse_sample_rate, tpot_threshold_seconds, slow_ms, slow_seconds,
}

module _ {F : Type 0} ⦃f : Float F⦄ (decimals : Decimals F) (env : Environment) where
  -- The sample rate is between 0 and 1 in any environment, if the float 0.01 is.
  pub langfuse_sample_rate_bounded :
      f.le f.zero decimals.hundredth ≡ true
      → f.le decimals.hundredth decimals.one ≡ true
      → let rate = langfuse_sample_rate decimals env in
        (f.le f.zero rate ≡ true) × (f.le rate decimals.one ≡ true)
  unfolding langfuse_sample_rate
  langfuse_sample_rate_bounded h k = (ground arith, ground arith)

  -- If the threshold in milliseconds is set but empty, the legacy threshold in seconds is used, but read
  -- as milliseconds: a positive value is divided by 1,000.
  pub tpot_threshold_seconds_blank :
      (text : String) (value : F)
      → env slow_ms ≡ some ""
      → env slow_seconds ≡ some text
      → decimals.to_float text ≡ some value
      → f.le value f.zero ≡ false
      → tpot_threshold_seconds decimals env ≡ decimals.thousandth_of value
  unfolding tpot_threshold_seconds
  tpot_threshold_seconds_blank text value blank legacy parsed positive = ground (arith, eq_refl "")
