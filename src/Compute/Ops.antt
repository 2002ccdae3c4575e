-- ===== src/Compute/Ops.antt =====
-- Which operation on a virtual machine runs: acquireOp and release of
-- services/compute-agent/internal/vm/handler.go, with the goroutines that call them. Each holds the
-- mutex from its look at `inFlight` to its change, so one turn of acquireOp's loop is one step.
use hybrid_cloud_with_claude.Prelude.{
  ℕ, suc, ◌==◌, ◌≡◌, Bool, true, false, not, ◌||◌, String, str_eq, Option, none, some,
  if◌then◌else◌,
}

pub data OpKind : Type 0 where
  op_create op_destroy : OpKind

abbrev kind_eq : OpKind → OpKind → Bool
kind_eq op_create op_create = true
kind_eq op_destroy op_destroy = true
kind_eq _ _ = false

-- A slot; its token stands for the pointer, by which slots are compared.
pub record OpSlot : Type 0 where
  pub token : ℕ
  pub kind : OpKind

-- Where a goroutine is: not started, at the top of acquireOp's loop, at `<-preempted.done`, at work, or
-- ended, with its request dropped or not.
pub data Pc : Type 0 where
  idle asking dropped finished : Pc
  waiting : ℕ → Pc
  working : ℕ → Pc

pub record Op : Type 0 where
  pub id : String
  pub kind : OpKind
  pub pc : Pc

-- `next` is the token of the slot made next; `cancelled` and `closed` are the slots whose context is
-- cancelled and whose `done` is closed.
pub record Ops : Type 0 where
  pub in_flight : String → Option OpSlot
  pub ops : ℕ → Op
  pub next : ℕ
  pub cancelled : ℕ → Bool
  pub closed : ℕ → Bool

abbrev pub set_flag : ℕ → (ℕ → Bool) → ℕ → Bool
set_flag t f u = if u == t then true else f u

abbrev pub set_entry : String → Option OpSlot → (String → Option OpSlot) → String → Option OpSlot
set_entry id e f i = if str_eq i id then e else f i

abbrev pub set_op : ℕ → Op → (ℕ → Op) → ℕ → Op
set_op n op f m = if m == n then op else f m

abbrev pub move : ℕ → Pc → Ops → Ops
move n pc o = record o { ops = set_op n (record (o.ops n) { pc = pc }) o.ops }

-- The goroutine that OnControl starts for a message.
unfoldable pub spawn : ℕ → String → OpKind → Ops → Ops
spawn n id kind o = record o { ops = set_op n (record { id = id; kind = kind; pc = asking }) o.ops }

abbrev pub claim : ℕ → Ops → Ops
claim n o = record (move n (working o.next) o) {
  in_flight =
      set_entry (o.ops n).id (some (record { token = o.next; kind = (o.ops n).kind })) o.in_flight;
  next = suc o.next;
}

-- Every request but a destroy that finds a create is dropped.
abbrev pub drops : OpSlot → OpKind → Bool
drops existing kind =
    kind_eq existing.kind kind
    || not (kind_eq kind op_destroy)
    || not (kind_eq existing.kind op_create)

-- One turn of acquireOp's loop.
abbrev pub ask_at : ℕ → Option OpSlot → Ops → Ops
ask_at n none o = claim n o
ask_at n (some existing) o =
    if drops existing (o.ops n).kind
    then move n dropped o
    else record (move n (waiting existing.token) o) {
      cancelled = set_flag existing.token o.cancelled;
    }

unfoldable pub ask : ℕ → Ops → Ops
ask n o = ask_at n (o.in_flight (o.ops n).id) o

abbrev freed : ℕ → Option OpSlot → Option OpSlot
freed t none = none
freed t (some cur) = if cur.token == t then none else some cur

-- release of the goroutine's slot
unfoldable pub release : ℕ → ℕ → Ops → Ops
release n t o =
    let id = (o.ops n).id in
    record (move n finished o) {
      in_flight = set_entry id (freed t (o.in_flight id)) o.in_flight;
      closed = set_flag t o.closed;
    }

pub data Step (o : Ops) : Ops → Type 0 where
  spawns : (n : ℕ) (id : String) (kind : OpKind) → (o.ops n).pc ≡ idle → Step o (spawn n id kind o)
  asks : (n : ℕ) → (o.ops n).pc ≡ asking → Step o (ask n o)
  wakes : (n t : ℕ) → (o.ops n).pc ≡ waiting t → o.closed t ≡ true → Step o (move n asking o)
  releases : (n t : ℕ) → (o.ops n).pc ≡ working t → Step o (release n t o)

abbrev pub start : Ops
start = record {
  in_flight = λ id. none;
  ops = λ n. record { id = ""; kind = op_create; pc = idle };
  next = 0;
  cancelled = λ t. false;
  closed = λ t. false;
}

pub data Reach : Ops → Type 0 where
  starts : Reach start
  then_step : {o o' : Ops} → Reach o → Step o o' → Reach o'
