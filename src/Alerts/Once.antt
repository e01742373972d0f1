-- ===== src/Alerts/Once.antt =====
-- What the alert check sends and logs about a bundle and a threshold.
use tsa_proxy.Common.{ℕ, ◌≡◌, true, false, List, [], ◌∷◌, All, ◌==◌, ◌&&◌}
use tsa_proxy.Alerts.{BundleAlert, AlertState, is_logged}

abbrev pub IsLogged : List (ℕ × ℕ) → BundleAlert → Type 0
IsLogged log a = is_logged a.bundle_id a.threshold_percent log ≡ true

-- No mail about the bundle and the threshold is in the list.
abbrev pub IsUnsent : ℕ → ℕ → List BundleAlert → Type 0
IsUnsent bundle threshold =
    All (λ a. (a.bundle_id == bundle && a.threshold_percent == threshold) ≡ false)

abbrev pub IsDistinct : List BundleAlert → Type 0
IsDistinct [] = Unit
IsDistinct (a ∷ sent) = IsUnsent a.bundle_id a.threshold_percent sent × IsDistinct sent

-- Every mail that went out is logged, and no two are about one bundle and one threshold.
pub record IsOnce (s : AlertState) : Type 0 where
  pub logged : All (IsLogged s.log) s.sent
  pub distinct : IsDistinct s.sent
