-- ===== src/Readiness.antt =====
-- internal/readiness/checker.go: whether the services that the process stands on answer.
use triovexa.Prelude.{
  ℕ, ◌+◌, ◌-◌, ◌/◌, String, Bool, true, false, ◌||◌, Option, none, some, List, [], ◌∷◌, str_eq,
  trim_space, trim_slashes, any, leb, if◌then◌else◌, ◌≡◌, refl, ap, arith,
}
use triovexa.Domain.{Time}
use Prim.Native.String.{◌++◌ as append}

record Dependency : Type 0 where
  status : String
  latency_ms : ℕ
  error : String

-- An entry of the report's map.
record Named : Type 0 where
  name : String
  dependency : Dependency

record Report : Type 0 where
  status : String
  dependencies : List Named

-- What the HTTP client gives back: a status, where there is a response, and whether there is an error.
record Response : Type 0 where
  status_code : Option ℕ
  fails : Bool

-- A Pinger: whether its Ping fails, by how often the clock was read.
abbrev Pinger : Type 0
Pinger = ℕ → Bool

-- What is outside: the clock, the client of Redis for an address, net/http.
record Outside : Type 0 where
  clock : ℕ → Time
  redis : String → Pinger
  valid_request : String → Bool
  get_url : String → ℕ → Response

record Checker : Type 0 where
  storage : Option Pinger
  redis : Option Pinger
  supervisor_url : String

unfoldable new_checker : Outside → Option Pinger → String → String → Checker
new_checker o storage redis_address supervisor_url = record {
  storage = storage;
  redis =
      if str_eq (trim_space redis_address) ""
      then none
      else some (o.redis (trim_space redis_address));
  supervisor_url = trim_slashes (trim_space supervisor_url);
}

-- A dependency, and how often the clock was read by then.
record Timed : Type 0 where
  dependency : Dependency
  reads : ℕ

skipped : Dependency
skipped = record { status = "skipped"; latency_ms = 0; error = "" }

-- The dependency that a call leaves, by whether the call failed; the clock is read before and after.
unfoldable timed : Outside → Pinger → ℕ → Timed
timed o fails n = record {
  dependency = record {
    status = if fails (n + 1) then "failed" else "ok";
    latency_ms = (o.clock (n + 1) - o.clock n) / 1000000;
    error = if fails (n + 1) then "dependency check failed" else "";
  };
  reads = n + 2;
}

unfoldable timed_check : Outside → Option Pinger → ℕ → Timed
unfolding timed skipped
timed_check o none n = record { dependency = skipped; reads = n }
timed_check o (some pinger) n = timed o pinger n

response_fails : Response → Bool
response_fails r = elim r.status_code [ none ↦ r.fails | some code ↦ r.fails || leb 400 code ]

-- Whether a call of the supervisor ends in an error.
unfoldable supervisor_fails : Outside → String → Pinger
unfolding response_fails
supervisor_fails o url n =
    if o.valid_request (append url "/health")
    then response_fails (o.get_url (append url "/health") n)
    else true

unfoldable check_supervisor : Outside → String → ℕ → Timed
unfolding timed skipped supervisor_fails
check_supervisor o url n = timed o (supervisor_fails o url) n

unfoldable supervisor_check : Outside → String → ℕ → Timed
unfolding check_supervisor skipped
supervisor_check o url n =
    if str_eq url "" then record { dependency = skipped; reads = n } else check_supervisor o url n

unfoldable is_failed : Named → Bool
is_failed entry = str_eq entry.dependency.status "failed"

unfoldable check : Outside → Checker → ℕ → Report
unfolding timed_check supervisor_check is_failed
check o c n =
    let storage = timed_check o c.storage n in
    let redis = timed_check o c.redis storage.reads in
    let supervisor = supervisor_check o c.supervisor_url redis.reads in
    let dependencies =
      record { name = "postgresql"; dependency = storage.dependency }
      ∷ record { name = "redis"; dependency = redis.dependency }
      ∷ record { name = "supervisor"; dependency = supervisor.dependency }
      ∷ [] in
    record {
      status = if any is_failed dependencies then "degraded" else "ok";
      dependencies = dependencies;
    }

-- A call that does not fail leaves no failed dependency.
timed-is_failed :
    (o : Outside) (p : Pinger) (name : String) (n : ℕ)
    → ((k : ℕ) → p k ≡ false)
    → is_failed (record { name = name; dependency = (timed o p n).dependency }) ≡ false
unfolding is_failed timed
timed-is_failed o p name n h = ap (λ b. str_eq (if b then "failed" else "ok") "failed") (h (n + 1))

if-is_failed :
    (b : Bool) (x y : Timed) (name : String)
    → is_failed (record { name = name; dependency = x.dependency }) ≡ false
    → is_failed (record { name = name; dependency = y.dependency }) ≡ false
    → is_failed (record { name = name; dependency = (if b then x else y).dependency }) ≡ false
if-is_failed true x y name h k = h
if-is_failed false x y name h k = k

timed_check-is_failed :
    (o : Outside) (p : Option Pinger) (name : String) (n : ℕ)
    → ((q : Pinger) → p ≡ some q → (k : ℕ) → q k ≡ false)
    → is_failed (record { name = name; dependency = (timed_check o p n).dependency }) ≡ false
unfolding is_failed timed_check skipped
timed_check-is_failed o none name n h = refl
timed_check-is_failed o (some p) name n h = timed-is_failed o p name n (h p refl)

supervisor_check-is_failed :
    (o : Outside) (url name : String) (n : ℕ)
    → ((k : ℕ) → supervisor_fails o url k ≡ false)
    → is_failed (record { name = name; dependency = (supervisor_check o url n).dependency }) ≡ false
unfolding supervisor_check check_supervisor skipped is_failed
supervisor_check-is_failed o url name n h =
    if-is_failed (str_eq url "") _ _ name refl (timed-is_failed o (supervisor_fails o url) name n h)

-- A report is degraded only by a dependency that is set up and fails: with what is left out skipped,
-- and every call answered, it says "ok".
check-status :
    (o : Outside) (c : Checker) (n : ℕ)
    → ((p : Pinger) → c.storage ≡ some p → (k : ℕ) → p k ≡ false)
    → ((p : Pinger) → c.redis ≡ some p → (k : ℕ) → p k ≡ false)
    → ((k : ℕ) → supervisor_fails o c.supervisor_url k ≡ false)
    → (check o c n).status ≡ "ok"
unfolding check
check-status o c n storage redis supervisor = ground (
  arith,
  timed_check-is_failed o c.storage "postgresql" n storage,
  timed_check-is_failed o c.redis "redis" (timed_check o c.storage n).reads redis,
  supervisor_check-is_failed o c.supervisor_url "supervisor"
      (timed_check o c.redis (timed_check o c.storage n).reads).reads supervisor,
)
