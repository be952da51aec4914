-- ===== src/Controllers/Hpa/Versions.antt =====
-- Which API version of autoscalers `requireLegacyHPA` takes for a Kubernetes 1.x server.
use yatai_deployment.Base.{
  ℕ, zero, suc, ◌+◌, ◌≤◌, ◌<◌, Bool, true, ◌&&◌, not, ◌≡◌, refl, arith, ltb, if◌then◌else◌,
}
use yatai_deployment.Decimal.{decimal}
use yatai_deployment.Controllers.Hpa.{ServerVersion, require_legacy_hpa}

abbrev pub one_dot : ℕ → ServerVersion
one_dot minor = record { major = "1"; minor = decimal minor }

-- The legacy API is taken up to 1.23 for minors of two digits, and up to 1.2 for those of one digit,
-- which are compared with "23" as texts.
abbrev pub takes_legacy : ℕ → Bool
takes_legacy minor = if ltb minor 10 then ltb minor 3 else ltb minor 24

-- Whether the two verdicts on a minor are one.
agrees : ℕ → Bool
agrees minor =
    if takes_legacy minor
    then require_legacy_hpa (one_dot minor)
    else not (require_legacy_hpa (one_dot minor))

-- Whether they are for `count` minors, from `first` on.
agree_from : ℕ → ℕ → Bool
unfolding agrees
agree_from first zero = true
agree_from first (suc count) = agrees first && agree_from (first + 1) count

agree_from-agrees :
    (first count minor : ℕ)
    → agree_from first count ≡ true
    → first ≤ minor
    → minor < first + count
    → agrees minor ≡ true
unfolding agree_from
agree_from-agrees first zero minor h low high = absurd (omega (arith, low, high))
agree_from-agrees first (suc count) minor h low high =
    ground (arith, agree_from-agrees (first + 1) count minor)

agrees-eq :
    (minor : ℕ) → agrees minor ≡ true → require_legacy_hpa (one_dot minor) ≡ takes_legacy minor
unfolding agrees
agrees-eq minor h = ground (arith, h)

two_digits_agree : agree_from 0 100 ≡ true
unfolding agree_from require_legacy_hpa decimal
two_digits_agree = refl

-- Against a server of version 1.n, n below 100, the reconciler uses the old autoscaler API exactly when
-- n is at most 23 and has two digits, or is at most 2.
pub require_legacy_hpa_lem :
    (minor : ℕ) → minor < 100 → require_legacy_hpa (one_dot minor) ≡ takes_legacy minor
require_legacy_hpa_lem minor h =
    agrees-eq minor
      (agree_from-agrees 0 100 minor two_digits_agree (omega arith) (omega (arith, h)))
