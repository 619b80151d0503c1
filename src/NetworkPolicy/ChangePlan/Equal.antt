-- ===== src/NetworkPolicy/ChangePlan/Equal.antt =====
-- `reflect.DeepEqual` on the plans of internal/networkpolicy/change_plan.go.
use native.Mathlib.Decide.{ℕ_discrete}
use control_center_stable.Prelude.{◌≡◌, false, ◌≢◌, String, ◌==◌, eq_iff, arith, refl}
use control_center_stable.Prelude.Time.{ℤ}
use control_center_stable.NetworkPolicy.Forwarding.{ForwardingIntent}
use control_center_stable.NetworkPolicy.ChangePlan.{
  false, true, Bool, ChangePlan, ChangeStep, ProbeKind, InterfaceIntent, ConnectivityProbe,
  TimeoutPolicy,
}

pub texts_apart : (s t : String) → (s == t) ≡ false → s ≢ t
texts_apart s t h e = ground (arith, eq_iff s t)

abbrev pub decided : (s t : String) (b : Bool) → (s == t) ≡ b → Dec (s ≡ t)
decided s t true same = yes ((eq_iff s t).0 same)
decided s t false differs = no (texts_apart s t differs)

unfoldable pub String-discrete : Discrete String
String-discrete s t = decided s t (s == t) refl

unfoldable pub ℤ-discrete : Discrete ℤ
ℤ-discrete = hlevel (ℕ_discrete)

unfoldable pub ProbeKind-discrete : Discrete ProbeKind
unfolding String-discrete
ProbeKind-discrete = hlevel (String-discrete)

unfoldable pub InterfaceIntent-discrete : Discrete InterfaceIntent
unfolding String-discrete
InterfaceIntent-discrete = hlevel (String-discrete)

unfoldable pub ForwardingIntent-discrete : Discrete ForwardingIntent
unfolding String-discrete
ForwardingIntent-discrete = hlevel (String-discrete)

unfoldable pub ConnectivityProbe-discrete : Discrete ConnectivityProbe
unfolding String-discrete ProbeKind-discrete
ConnectivityProbe-discrete = hlevel (String-discrete, ProbeKind-discrete)

unfoldable pub TimeoutPolicy-discrete : Discrete TimeoutPolicy
unfolding ℤ-discrete
TimeoutPolicy-discrete = hlevel (ℤ-discrete)

unfoldable pub ChangeStep-discrete : Discrete ChangeStep
ChangeStep-discrete = hlevel (ℕ_discrete)

unfoldable pub ChangePlan-discrete : Discrete ChangePlan
unfolding String-discrete InterfaceIntent-discrete ForwardingIntent-discrete
    ConnectivityProbe-discrete TimeoutPolicy-discrete ChangeStep-discrete
ChangePlan-discrete = hlevel (
  String-discrete, InterfaceIntent-discrete, ForwardingIntent-discrete, ConnectivityProbe-discrete,
  TimeoutPolicy-discrete, ChangeStep-discrete,
)

unfoldable pub deep_equal : ChangePlan → ChangePlan → Bool
unfolding ChangePlan-discrete
deep_equal a b = elim (ChangePlan-discrete a b) [ yes e ↦ true | no n ↦ false ]

-- Plans that are found equal are.
pub deep_equal_lem : (a b : ChangePlan) → deep_equal a b ≡ true → a ≡ b
unfolding deep_equal
deep_equal_lem a b h =
    elim (ChangePlan-discrete a b) as (λ d. elim d [ yes e ↦ true | no n ↦ false ] ≡ true → a ≡ b) [
      | yes e ↦ λ h. e
      | no n ↦ λ h. ground arith
    ]
      h
