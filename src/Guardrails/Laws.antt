-- ===== src/Guardrails/Laws.antt =====
-- The billing of early deletes, and which default guardrails are valid
-- (pkg/storageguardrails/guardrails.go).
use kdrive.Common.{
  ℕ, ◌+◌, ◌-◌, ◌≤◌, ◌==◌, String, ◌≡◌, ◌≢◌, refl, true, if◌then◌else◌, pos, pos_part, ltℤ, err,
  arith,
}
use kdrive.Common.Dict.{str_ne}
use kdrive.HotCache.{Float64}
use kdrive.Guardrails.{
  MinStorageTracker, residual, residual_billable_window, egress_ratio_not_positive, profile_for,
  default_guardrails_for_provider, validate,
}

-- The time at which the piece stops being stored.
abbrev pub end_of : MinStorageTracker → ℕ → ℕ
end_of t now = if t.deleted_at == 0 then now else t.deleted_at

residual-billed :
    (stored_at duration end : ℕ)
    → stored_at ≤ end
    → (duration ≤ end - stored_at → residual stored_at duration end ≡ 0)
      × (end - stored_at ≤ duration → end - stored_at + residual stored_at duration end ≡ duration)
unfolding residual
residual-billed stored_at duration end h = (λ k. ground arith, λ k. ground arith)

-- A piece that ends no earlier than it was stored, under a positive minimum: when it was stored for
-- at least the minimum, nothing more is billed; when for less, the time stored and the residual
-- window together are exactly the minimum. A piece that is not deleted ends now.
pub residual_billable_window-billed :
    (t : MinStorageTracker) (now : ℕ)
    → ltℤ (pos 0) t.min_storage_duration ≡ true
    → t.stored_at ≤ end_of t now
    → (pos_part t.min_storage_duration ≤ end_of t now - t.stored_at
        → residual_billable_window t now ≡ 0)
      × (end_of t now - t.stored_at ≤ pos_part t.min_storage_duration
          → end_of t now - t.stored_at + residual_billable_window t now
            ≡ pos_part t.min_storage_duration)
unfolding residual_billable_window
residual_billable_window-billed t now positive h =
    rw positive (residual-billed t.stored_at (pos_part t.min_storage_duration) (end_of t now) h)

-- The default guardrails of every provider but "wasabi" and "b2" are refused by Validate, for an
-- egress ratio that is not positive, wherever 0 <= 0 holds of the floating-point numbers.
pub default-invalid :
    (F : Type 0) ⦃fl : Float64 F⦄ (tenant_id provider_name : String)
    → fl.le (fl.literal 0 0) (fl.literal 0 0) ≡ true
    → tenant_id ≢ ""
    → provider_name ≢ "wasabi"
    → provider_name ≢ "b2"
    → validate {F = F} (default_guardrails_for_provider tenant_id provider_name)
      ≡ err egress_ratio_not_positive
unfolding validate default_guardrails_for_provider profile_for
default-invalid F tenant_id provider_name le tenant not_wasabi not_b2 =
    rw (str_ne tenant_id "" tenant) (
      rw (str_ne provider_name "wasabi" not_wasabi)
        (rw (str_ne provider_name "b2" not_b2) (rw le refl)))
