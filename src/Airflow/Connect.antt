-- ===== src/Airflow/Connect.antt =====
-- `KafkaConnectHook` of orchestration/plugins/fineract/hooks.py and the `KafkaConnectorHealthSensor`
-- of sensors.py. The answer to a status call is a parameter, also the text of its exception.
use fineract_analytics_platf.Prelude.{
  ℕ, suc, String, Bool, true, false, not, ◌&&◌, ◌||◌, none, some, List, [], ◌∷◌, ◌++◌, all,
  if◌then◌else◌,
}
use fineract_analytics_platf.Values.{
  Value, array, object, Items, end, get_field?, Text, text_eq, chars, items,
}
use fineract_analytics_platf.Outcome.{
  Outcome, ok, raised, type_error, attribute_error, key_error, no_response, ◌>>=◌,
}

-- The answer to a status call: an exception with its text, or the JSON.
pub data StatusReply : Type 0 where
  call_failed : Text → StatusReply
  status : Value → StatusReply

-- value.get(key, default)
abbrev pub get_or : String → Value → Value → Outcome Value
get_or key default (object fs) = elim (get_field? fs key) [ none ↦ ok default | some v ↦ ok v ]
get_or key default _ = raised attribute_error

abbrev unknown : Value
unknown = Value.text (chars "UNKNOWN")

-- for task in status.get("tasks", [])
unfoldable pub tasks_of : Value → Outcome (List Value)
tasks_of v = get_or "tasks" (array Items.nil) v >>= elements
  where
    elements : Value → Outcome (List Value)
    elements (array vs) = ok (items vs)
    elements (object end) = ok []
    elements (Value.text []) = ok []
    elements (object _) = raised attribute_error
    elements (Value.text _) = raised attribute_error
    elements _ = raised type_error

unfoldable pub states_of : List Value → Outcome (List Value)
states_of [] = ok []
states_of (t ∷ ts) = get_or "state" unknown t >>= λ s. states_of ts >>= λ ss. ok (s ∷ ss)

abbrev pub is_text : Text → Value → Bool
is_text s (Value.text t) = text_eq t s
is_text s _ = false

abbrev pub is_state : String → Value → Bool
is_state s = is_text (chars s)

-- ",".join(states)
unfoldable pub join : List Value → Outcome Text
join [] = ok []
join (Value.text t ∷ []) = ok t
join (Value.text t ∷ vs) = join vs >>= λ rest. ok (t ++ b',' ∷ rest)
join _ = raised type_error

-- KafkaConnectHook.is_running; there is always a state, the connector's.
unfoldable pub is_running : StatusReply → Outcome (Bool × Text)
is_running (call_failed text) = ok (false, chars "status call failed: " ++ text)
is_running (status v) = do
  connector ← get_or "connector" (object end) v
  state ← get_or "state" unknown connector
  tasks ← tasks_of v
  states ← states_of tasks
  detail ← join (state ∷ states)
  ok (all (is_state "RUNNING") (state ∷ states), detail)

-- task["id"]
abbrev id_of : Value → Outcome Value
id_of (object fs) = elim (get_field? fs "id") [ none ↦ raised (key_error "id") | some v ↦ ok v ]
id_of _ = raised type_error

-- The loop of `restart_failed_tasks`, with the tasks that were asked to restart so far; `posts n` is
-- whether the n-th request arrives. What the server answers to it is not read.
unfoldable pub restart :
    (ℕ → Bool) → ℕ → List Value → List Value → Outcome (List Value) × List Value
restart posts n done [] = (ok done, done)
restart posts n done (t ∷ ts) = elim (get_or "state" Value.null t) [
  | raised e ↦ (raised e, done)
  | ok s ↦
      if is_state "FAILED" s
      then elim (id_of t) [
        | raised e ↦ (raised e, done)
        | ok id ↦
            if posts n
            then restart posts (suc n) (done ++ id ∷ []) ts
            else (raised no_response, done)
      ]
      else restart posts n done ts
]

-- KafkaConnectHook.restart_failed_tasks, with the tasks that were asked to restart
unfoldable pub restart_failed_tasks : (ℕ → Bool) → StatusReply → Outcome (List Value) × List Value
restart_failed_tasks posts (call_failed text) = (raised no_response, [])
restart_failed_tasks posts (status v) = elim (tasks_of v) [
  | raised e ↦ (raised e, [])
  | ok tasks ↦ restart posts 0 [] tasks
]

abbrev pub begins : Text → Text → Bool
begins [] s = true
begins (c ∷ p) [] = false
begins (c ∷ p) (d ∷ s) = text_eq (c ∷ []) (d ∷ []) && begins p s

-- `p in s`, of a text that is not empty
abbrev pub contains : Text → Text → Bool
contains p [] = false
contains p (d ∷ s) = begins p (d ∷ s) || contains p s

abbrev after_restart : Bool → Outcome (List Value) × List Value → Outcome Bool × List Value
after_restart healthy (ok _, done) = (ok healthy, done)
after_restart healthy (raised e, done) = (raised e, done)

-- KafkaConnectorHealthSensor.poke: `first` and `second` are the answers to its two status calls. It
-- returns with the tasks that it asked to restart.
unfoldable pub poke_connector :
    (ℕ → Bool) → Bool → StatusReply → StatusReply → Outcome Bool × List Value
poke_connector posts restart_failed first second = elim (is_running first) [
  | raised e ↦ (raised e, [])
  | ok (healthy, detail) ↦
      if not healthy && restart_failed && contains (chars "FAILED") detail
      then after_restart healthy (restart_failed_tasks posts second)
      else (ok healthy, [])
]
