-- ===== src/Cli/Statements.antt =====
-- How many statements and commits the commands of ingestion/fineract_ingest/cli.py run that look at
-- the system.
use fineract_analytics_platf.Prelude.{
  ℕ, zero, suc, ◌+◌, ◌≡◌, refl, sym, ap, ◌∙◌, Bool, true, false, not, ◌&&◌, List, [], ◌∷◌, map,
  length, arith,
}
use fineract_analytics_platf.Outcome.{Exception, Outcome, ok, raised}
use fineract_analytics_platf.Entities.Spec.{EntitySpec}
use fineract_analytics_platf.Loader.Store.{Db, Connection, Faults, Tx, execute, commit}
use fineract_analytics_platf.Loader.Store
use fineract_analytics_platf.Loader.Control.{table_count}
use fineract_analytics_platf.Loader.Status.{
  Slot, slot_status, find_watermark, read_watermark, replication_slot_status, touch_heartbeat,
}
use fineract_analytics_platf.Pipeline.World.{World, Setting, Job, after, ◌>>=◌, pure, on_connection}
use fineract_analytics_platf.Cli.{statuses}

-- None of the `n` statements and commits from the number `c` on fails.
abbrev pub clear : Faults → ℕ → ℕ → Bool
clear faults c zero = true
clear faults c (suc n) = not (faults c) && clear faults (c + 1) n

abbrev pub is_ok : {A : Type 0} → Outcome A → Bool
is_ok (ok a) = true
is_ok (raised e) = false

and_assoc : (a b c : Bool) → a && (b && c) ≡ (a && b) && c
and_assoc true b c = refl
and_assoc false b c = refl

clear-add :
    (faults : Faults) (c n m : ℕ)
    → clear faults c (n + m) ≡ clear faults c n && clear faults (c + n) m
clear-add faults c zero m =
    ap (λ (k : ℕ). clear faults c k) (let e : 0 + m ≡ m = omega arith in e)
    ∙ ap (λ (k : ℕ). clear faults k m) (let e : c ≡ c + 0 = omega arith in e)
clear-add faults c (suc n) m =
    ap (λ (k : ℕ). clear faults c k) (let e : suc n + m ≡ suc (n + m) = omega arith in e)
    ∙ ap (λ b. not (faults c) && b)
        (clear-add faults (c + 1) n m
          ∙ ap (λ (k : ℕ). clear faults (c + 1) n && clear faults k m)
              (let e : c + 1 + n ≡ c + suc n = omega arith in e))
    ∙ and_assoc (not (faults c)) (clear faults (c + 1) n) (clear faults (c + suc n) m)

module _ (faults : Faults) where
  -- From the number `c` on, `p` is the end of `n` statements and commits, or of the first that fails.
  pub record Took {A : Type 0} (c n : ℕ) (p : Outcome A × ℕ) : Type 0 where
    pub returns : is_ok p.0 ≡ clear faults c n
    pub clock : is_ok p.0 ≡ true → p.1 ≡ c + n

  module _ {B : Type 0} where
    Took-next :
        (c n k d : ℕ) (q : Outcome B × ℕ)
        → true ≡ clear faults c n
        → d ≡ c + n
        → Took d k q
        → Took c (n + k) q
    Took-next c n k d q first same h = record {
      returns =
          h.returns
          ∙ ap (λ (i : ℕ). clear faults i k) same
          ∙ ap (λ b. b && clear faults (c + n) k) first
          ∙ sym (clear-add faults c n k);
      clock = λ e. let last = h.clock e in omega arith;
    }

    Took-stop :
        (c n k d : ℕ) (x : Exception)
        → false ≡ clear faults c n
        → Took {A = B} c (n + k) (raised x, d)
    Took-stop c n k d x first = record {
      returns = ap (λ b. b && clear faults (c + n) k) first ∙ sym (clear-add faults c n k);
      clock = λ e. absurd cc;
    }

  abbrev clocked : {A : Type 0} → Outcome A × Connection → Outcome A × ℕ
  clocked p = (p.0, p.1.clock)

  -- A call of `n` statements and commits, if none fails.
  record Calls {A : Type 0} (n : ℕ) (m : Tx A) : Type 0 where
    at : (c : Connection) → Took c.clock n (clocked (m c))

  Calls-execute : {A : Type 0} (f : Db → A) → Calls 1 (execute faults (λ db. (ok (f db), db)))
  unfolding execute
  Calls-execute f = record {
    at = λ c. record { returns = ground arith; clock = λ h. ground arith };
  }

  Calls-commit : Calls 1 (commit faults)
  unfolding commit
  Calls-commit = record { at = λ c. record { returns = ground arith; clock = λ h. ground arith } }

  Calls-pure : {A : Type 0} (a : A) → Calls 0 (Store.pure a)
  Calls-pure a = record { at = λ c. record { returns = refl; clock = λ h. omega arith } }

  module _ {A B : Type 0} where
    Took-call :
        (c n k : ℕ) (p : Outcome A × Connection) (f : A → Tx B)
        → Took c n (clocked p)
        → ((a : A) → Calls k (f a))
        → Took c (n + k) (clocked (Store.after p f))
    Took-call c n k (ok a, d) f h g =
        Took-next c n k d.clock (clocked (f a d)) h.returns (h.clock refl) ((g a).at d)
    Took-call c n k (raised x, d) f h g = Took-stop c n k d.clock x h.returns

    Calls-bind :
        (n k : ℕ) (m : Tx A) (f : A → Tx B)
        → Calls n m
        → ((a : A) → Calls k (f a))
        → Calls (n + k) (λ c. Store.after (m c) f)
    Calls-bind n k m f h g = record { at = λ c. Took-call c.clock n k (m c) f (h.at c) g }

  -- The reads of the loader commit, and so are two each.
  Calls-read :
      {A : Type 0} (f : Db → A)
      → Calls 2 (λ c.
        Store.after
          (execute faults (λ db. (ok (f db), db)) c)
          (λ a c. Store.after (commit faults c) (λ _. Store.pure a)))
  Calls-read f =
      Calls-bind 1 1 _ _ (Calls-execute f)
        (λ a. Calls-bind 1 0 _ _ Calls-commit (λ _. Calls-pure a))

  -- A job of `n` statements and commits, if none fails.
  pub record Takes {A : Type 0} (n : ℕ) (m : Job A) : Type 0 where
    pub at : (w : World) → Took w.connection.clock n ((m w).0, (m w).1.connection.clock)

  Takes-pure : {A : Type 0} (a : A) → Takes 0 (pure a)
  Takes-pure a = record { at = λ w. record { returns = refl; clock = λ h. omega arith } }

  Takes-call : {A : Type 0} (n : ℕ) (m : Tx A) → Calls n m → Takes n (on_connection m)
  Takes-call n m h = record { at = λ w. h.at w.connection }

  module _ {A B : Type 0} where
    Took-after :
        (c n k : ℕ) (p : Outcome A × World) (f : A → Job B)
        → Took c n (p.0, p.1.connection.clock)
        → ((a : A) → Takes k (f a))
        → Took c (n + k) ((after p f).0, (after p f).1.connection.clock)
    Took-after c n k (ok a, w) f h g =
        Took-next c n k w.connection.clock _ h.returns (h.clock refl) ((g a).at w)
    Took-after c n k (raised x, w) f h g = Took-stop c n k w.connection.clock x h.returns

    Takes-bind :
        (n k : ℕ) (m : Job A) (f : A → Job B)
        → Takes n m
        → ((a : A) → Takes k (f a))
        → Takes (n + k) (m >>= f)
    Takes-bind n k m f h g = record {
      at = λ w. Took-after w.connection.clock n k (m w) f (h.at w) g;
    }

  pub Takes-slots :
      (slots : List Slot) → Takes 2 (on_connection (replication_slot_status faults slots))
  unfolding replication_slot_status
  Takes-slots slots = Takes-call 2 _ (Calls-read (λ db. map slot_status slots))

  pub Takes-heartbeat : Takes 2 (on_connection (touch_heartbeat faults))
  unfolding touch_heartbeat
  Takes-heartbeat =
      Takes-call 2 _ (Calls-bind 1 1 _ _ (Calls-execute (λ db. tt)) (λ _. Calls-commit))

-- A watermark and a count for each entity
abbrev pub cost : List EntitySpec → ℕ
cost [] = 0
cost (spec ∷ specs) = 2 + 2 + cost specs

pub Takes-statuses :
    (s : Setting) (specs : List EntitySpec) → Takes s.faults (cost specs) (statuses s specs)
unfolding statuses read_watermark table_count
Takes-statuses s [] = Takes-pure s.faults tt
Takes-statuses s (spec ∷ specs) =
    Takes-bind s.faults (2 + 2) (cost specs) _ _
      (Takes-bind s.faults 2 2 _ _
        (Takes-call s.faults 2 _
          (Calls-read s.faults (λ db. find_watermark spec.name db.watermarks)))
        (λ _. Takes-call s.faults 2 _ (Calls-read s.faults (λ db. length (db.tables spec.table)))))
      (λ _. Takes-statuses s specs)
