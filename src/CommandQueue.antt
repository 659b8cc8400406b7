-- ===== src/CommandQueue.antt =====
-- server/src/engine/command_queue.py: the commands of the web interface on their way to the engine,
-- and `_process_commands` of server/src/engine/core.py. A command is an object that the dictionaries
-- and the queue share: `store` holds the objects by their id, which `uuid4` makes, and the others
-- hold ids. A `put` on a full `asyncio.Queue` waits; the ids of those that wait are `putters`.
pub mod Store
pub mod Steps
pub mod Places
pub mod Turns
pub mod Loop
mod Tests
use Prim.Native.String.{String}
use stock_test.Base.{
  ℕ, suc, zero, ◌≤◌, ◌<◌, Bool, true, false, ◌&&◌, Option, none, some, List, [], ◌∷◌, ◌++◌, ltb,
  leb, ◌==◌, if◌then◌else◌, length,
}
use stock_test.Dict.{Dict, lookup, put}
use stock_test.Positions.Ids.{has_id, remove_id}

pub data CommandType : Type 0 where
  pause resume flatten flatten_symbol refresh_positions reconcile : CommandType

-- `V` is the type of the values of Python that are passed on.
pub record Command (V : Type 0) : Type 0 where
  pub command_type : CommandType
  pub params : V
  pub command_id : ℕ
  pub created_at : ℕ
  pub result : Option V
  pub error : Option String
  pub completed : Bool

-- `queue` starts with the id that is taken next; `max_size` 0 means no limit.
pub record CommandQueue (V : Type 0) : Type 0 where
  pub max_size : ℕ
  pub store : Dict (Command V)
  pub queue : List ℕ
  pub putters : List ℕ
  pub pending : List ℕ
  pub results : List ℕ

-- `result` and `error` of `complete`
pub record Outcome (V : Type 0) : Type 0 where
  pub result : Option V
  pub error : Option String

-- What `get_result` returns, or the exception that it raises
pub data Reply (V : Type 0) : Type 0 where
  returned : Command V → Reply V
  timed_out : Reply V

-- The keys of a dictionary after `d[id] = …`
abbrev pub add_key : ℕ → List ℕ → List ℕ
add_key id ids = if has_id id ids then ids else ids ++ id ∷ []

module _ {V : Type 0} where
  unfoldable pub init : ℕ → CommandQueue V
  init max_size = record {
    max_size = max_size;
    store = [];
    queue = [];
    putters = [];
    pending = [];
    results = [];
  }

  abbrev pub full : CommandQueue V → Bool
  full q = ltb 0 q.max_size && leb q.max_size (length q.queue)

  -- `put`, up to where it has to wait
  unfoldable pub put_command : Command V → CommandQueue V → CommandQueue V
  put_command c q =
      let id = c.command_id in
      let registered = record q { store = put id c q.store; pending = add_key id q.pending } in
      if full q
      then record registered { putters = q.putters ++ id ∷ [] }
      else record registered { queue = q.queue ++ id ∷ [] }

  -- A `put` that waits goes on, where there is room by then.
  unfoldable pub wake : ℕ → CommandQueue V → CommandQueue V
  wake id q =
      if has_id id q.putters
      then if full q
        then q
        else record q { putters = remove_id id q.putters; queue = q.queue ++ id ∷ [] }
      else q

  unfoldable pub get_nowait : CommandQueue V → Option (Command V) × CommandQueue V
  get_nowait q = elim q.queue [
    | [] ↦ (none, q)
    | (id ∷ rest) ↦ (lookup id q.store, record q { queue = rest })
  ]

  -- The object after `complete`
  abbrev pub done : Outcome V → Command V → Command V
  done o c = record c { result = o.result; error = o.error; completed = true }

  unfoldable pub complete : ℕ → Outcome V → CommandQueue V → CommandQueue V
  complete id o q =
      if has_id id q.pending
      then record q {
        store = elim (lookup id q.store) [ none ↦ q.store | some c ↦ put id (done o c) q.store ];
        pending = remove_id id q.pending;
        results = add_key id q.results;
      }
      else q

  -- One look of `get_result` at the results
  unfoldable pub poll : ℕ → CommandQueue V → Option (Command V) × CommandQueue V
  poll id q =
      if has_id id q.results
      then (lookup id q.store, record q { results = remove_id id q.results })
      else (none, q)

-- The calls, in the order in which they get their turn
pub data Call (V : Type 0) : Type 0 where
  putting : Command V → Call V
  waking : ℕ → Call V
  getting : Call V
  completing : ℕ → Outcome V → Call V
  polling : ℕ → Call V

module _ {V : Type 0} where
  unfoldable pub apply : Call V → CommandQueue V → CommandQueue V
  apply (putting c) q = put_command c q
  apply (waking id) q = wake id q
  apply getting q = (get_nowait q).1
  apply (completing id o) q = complete id o q
  apply (polling id) q = (poll id q).1

  unfoldable pub run : List (Call V) → CommandQueue V → CommandQueue V
  run [] q = q
  run (c ∷ cs) q = run cs (apply c q)

  -- `get_result`: before each look, `calls` of the others get their turn, and `elapsed` is the time
  -- since its start at the end of the look; none where it still waits after the last look.
  unfoldable pub get_result :
      ℕ → ℕ → List (ℕ × List (Call V)) → CommandQueue V → Option (Reply V) × CommandQueue V
  get_result id timeout [] q = (none, q)
  get_result id timeout ((elapsed, calls) ∷ looks) q =
      let before = run calls q in
      let (found, after) = poll id before in
      let rest = get_result id timeout looks after in
      elim found [
        | some c ↦ (some (returned c), after)
        | none ↦ if ltb timeout elapsed then (some timed_out, after) else rest
      ]

module _ {V W : Type 0} where
  -- `_process_commands`, of which `execute` is `_execute_command`, with the text of an exception as an
  -- error; the flag says that the loop has ended. Nothing else runs in between.
  unfoldable pub process_commands :
      (Command V → W → W × Outcome V) → ℕ → W → CommandQueue V → W × CommandQueue V × Bool
  process_commands execute zero w q = (w, q, false)
  process_commands execute (suc fuel) w q =
      let (command, rest) = get_nowait q in
      elim command [
        | none ↦ (w, rest, true)
        | some c ↦
            let (w', o) = execute c w in
            process_commands execute fuel w' (complete c.command_id o rest)
      ]
