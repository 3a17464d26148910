-- ===== src/Resilience/Breaker.antt =====
-- resilience/circuit_breaker.py. Each operation holds the breaker's lock while it works, so it is one
-- step. The clock's reading is the argument `now`, counted in ticks.
pub mod Operations
pub mod Invariant
pub mod Probe
pub mod Threshold
use coalestra.Prelude.{
  ℕ, ℤ, pos, pos_part, neg_part, ◌+◌, String, String-discrete, Bool, true, false, Option, none,
  some, List, [], ◌∷◌, map, ltb, leb, ◌||◌, if◌then◌else◌,
}
use Prim.Native.String.{◌++◌ as str_append}
use coalestra.Dict.{lookup, pop, put}
use coalestra.Core.Errors.{value_error, circuit_open_error, Result, ok, raise, ◌>>=◌}
use coalestra.Core.Keys.{ResourceKey}
use coalestra.Resilience.Policy.{
  CircuitScope, source, namespace, subject, resource, CircuitScope-discrete, CircuitBreakerPolicy,
  circuit_breaker_policy,
}
use coalestra.Core.Numbers.{Number}

pub data CircuitState : Type 0 where
  closed opened half_open : CircuitState

pub record CircuitIdentity : Type 0 where
  pub source : String
  pub scope : CircuitScope
  pub discriminator : String

unfoldable pub CircuitIdentity-discrete : Discrete CircuitIdentity
unfolding String-discrete CircuitScope-discrete
CircuitIdentity-discrete = hlevel (String-discrete, CircuitScope-discrete)

pub record Circuit : Type 0 where
  pub state : CircuitState
  pub failures : ℕ
  pub opened_at : ℤ
  pub half_open_probe_active : Bool

pub record CircuitBreaker : Type 0 where
  pub default_policy : CircuitBreakerPolicy
  pub circuits : List (CircuitIdentity × Circuit)

-- What the code takes of Python's texts: `str.strip` and urllib's `urlencode`.
pub record Texts : Type 0 where
  pub strip : String → String
  pub urlencode : List (String × String) → String

-- the arguments that the operations share
pub record Target : Type 0 where
  pub source : String
  pub key : Option ResourceKey
  pub policy : Option CircuitBreakerPolicy

abbrev pub new_circuit : Circuit
new_circuit = record {
  state = closed;
  failures = 0;
  opened_at = pos 0;
  half_open_probe_active = false;
}

infixr 6 ◌&◌
abbrev ◌&◌ : String → String → String
a & b = str_append a b

abbrev with_subject : ResourceKey → String → String
with_subject key base = elim (String-discrete key.subject "") [
  | yes _ ↦ base
  | no _ ↦ base & ":" & key.subject
]

abbrev with_qualifiers : Texts → List (String × String) → String → String
with_qualifiers t [] base = base
with_qualifiers t (q ∷ qs) base = base & "?" & t.urlencode (q ∷ qs)

-- str(key)
unfoldable pub key_text : Texts → ResourceKey → String
unfolding String-discrete
key_text t key =
    with_qualifiers t key.qualifiers (with_subject key (key.namespace & ":" & key.name))

-- key.subject or f"{key.namespace}:{key.name}"
abbrev subject_text : ResourceKey → String
subject_text key = elim (String-discrete key.subject "") [
  | yes _ ↦ key.namespace & ":" & key.name
  | no _ ↦ key.subject
]

unfoldable discriminator_for : Texts → CircuitScope → Option ResourceKey → Result String
unfolding key_text
discriminator_for t source key = ok ""
discriminator_for t scope none = raise value_error
discriminator_for t namespace (some key) = ok key.namespace
discriminator_for t subject (some key) = ok (subject_text key)
discriminator_for t resource (some key) = ok (key_text t key)

-- identity_for, at the scope that was resolved
unfoldable pub identity_for :
    Texts → String → Option ResourceKey → CircuitScope → Result CircuitIdentity
unfolding discriminator_for
identity_for t name key scope = elim (String-discrete (t.strip name) "") [
  | yes _ ↦ raise value_error
  | no _ ↦ do
    discriminator ← discriminator_for t scope key
    ok (record { source = t.strip name; scope = scope; discriminator = discriminator })
]

-- policy or self.default_policy
abbrev pub resolved_policy : CircuitBreaker → Target → CircuitBreakerPolicy
resolved_policy b target = elim target.policy [ none ↦ b.default_policy | some p ↦ p ]

abbrev pub identity_of : Texts → CircuitBreaker → Target → Result CircuitIdentity
identity_of t b target = identity_for t target.source target.key (resolved_policy b target).scope

-- self._circuits.setdefault(identity, _Circuit()), or `get` with this default
unfoldable pub circuit_at : CircuitBreaker → CircuitIdentity → Circuit
circuit_at b i = elim (lookup CircuitIdentity-discrete i b.circuits) [
  | none ↦ new_circuit
  | some c ↦ c
]

unfoldable pub update : CircuitBreaker → CircuitIdentity → Circuit → CircuitBreaker
update b i c = record b { circuits = put CircuitIdentity-discrete i c b.circuits }

-- now - opened_at < timeout
abbrev pub waiting : ℤ → ℤ → ℕ → Bool
waiting now opened_at timeout =
    ltb (pos_part now + neg_part opened_at) (pos_part opened_at + neg_part now + timeout)

-- the last statements of `before_call`, in a half-open circuit
abbrev probe : Circuit → Circuit × Result (Unit {0})
probe c =
    if c.half_open_probe_active
    then (c, raise circuit_open_error)
    else (record c { half_open_probe_active = true }, ok tt)

unfoldable pub admit : ℤ → ℕ → CircuitState → Circuit → Circuit × Result (Unit {0})
admit now timeout closed c = (c, ok tt)
admit now timeout opened c =
    if waiting now c.opened_at timeout
    then (c, raise circuit_open_error)
    else probe (record c { state = half_open })
admit now timeout half_open c = probe c

-- record_success, record_failure, record_abandoned and record_skipped, on their circuit
abbrev pub succeed : Circuit → Circuit
succeed c = new_circuit

unfoldable pub is_half_open : CircuitState → Bool
is_half_open half_open = true
is_half_open _ = false

unfoldable pub fail : ℤ → ℕ → Circuit → Circuit
unfolding is_half_open
fail now threshold c =
    let counted = record c { half_open_probe_active = false; failures = c.failures + 1 } in
    if leb threshold (c.failures + 1) || is_half_open c.state
    then record counted { state = opened; opened_at = now }
    else counted

unfoldable pub abandon : ℤ → Circuit → Circuit
unfolding is_half_open
abandon now c =
    let released = record c { half_open_probe_active = false } in
    if is_half_open c.state
    then if c.half_open_probe_active
      then record released { state = opened; opened_at = now }
      else released
    else released

abbrev pub skip : Circuit → Circuit
skip c = record c { half_open_probe_active = false }

-- CircuitBreaker(...): the default policy, or one made of the threshold and the timeout
unfoldable pub circuit_breaker : ℤ → Number → Option CircuitBreakerPolicy → Result CircuitBreaker
circuit_breaker threshold timeout (some p) = ok (record { default_policy = p; circuits = [] })
circuit_breaker threshold timeout none = do
  p ← circuit_breaker_policy source threshold timeout true
  ok (record { default_policy = p; circuits = [] })
