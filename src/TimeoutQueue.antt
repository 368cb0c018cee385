-- ===== src/TimeoutQueue.antt =====
-- util/include/tc_timeout_queue_new.h: `TC_TimeoutQueueNew<T>`, the requests of a connection that
-- wait for their answer: found by id, ordered by deadline, and queued for sending.
pub mod Times
pub mod Invariant
pub mod Unlink
pub mod View
pub mod Timeouts
pub mod FirstTimeout
pub mod Sending
pub mod Ids
mod Tests
use learn_tars.Base.{
  ℕ, suc, ◌+◌, ◌≤◌, ◌<◌, ◌≡◌, Bool, true, false, not, List, [], ◌∷◌, Option, none, some, ltb, ◌==◌,
  if◌then◌else◌, length, ◌>>=◌, ◌>>◌, assert_that,
}
use learn_tars.Base.Words.{add32}
use learn_tars.Base.Keyed.{Keyed, find, without, update, last, drop_last}

-- `PtrInfo`. An iterator is the identity of the node that it points to; `send_iter` means something
-- while `has_send` is false only.
pub record PtrInfo {ℓ} (A : Type ℓ) : Type ℓ where
  pub ptr : A
  pub has_send : Bool
  pub time_iter : ℕ
  pub send_iter : ℕ

-- A node of the multimap `_time`: its key, and the `NodeInfo`, an iterator into `_data`.
pub record TimeNode : Type 0 where
  pub due : ℕ
  pub data_iter : ℕ

-- `_data` by id, `_time` in the order of its keys, `_send` from the front, and the identity that
-- the next list node will get.
pub record TimeoutQueue {ℓ} (A : Type ℓ) : Type ℓ where
  pub uniq_id : ℕ
  pub entries : Keyed (PtrInfo A)
  pub times : Keyed TimeNode
  pub sends : Keyed ℕ
  pub fresh : ℕ

-- `multimap::insert`: after the nodes with the same key.
pub insert_time : ℕ × TimeNode → Keyed TimeNode → Keyed TimeNode
insert_time n [] = n ∷ []
insert_time n (m ∷ l) = if ltb n.1.due m.1.due then n ∷ m ∷ l else m ∷ insert_time n l

-- `erase` through an iterator, which has to point to a node of the list.
pub erase_node {ℓ} : {B : Type ℓ} → ℕ → Keyed B → Option (Keyed B)
erase_node i l = find i l >>= λ _. some (without i l)

-- `while (++_uniqId == 0);` for at most so many rounds.
pub next_id : ℕ → ℕ → Option ℕ
next_id ℕ.zero u = none
next_id (suc f) u =
    let rest = next_id f (add32 u 1) in if add32 u 1 == 0 then rest else some (add32 u 1)

module _ {ℓ} {A : Type ℓ} where
  pub init : TimeoutQueue A
  init = record { uniq_id = 0; entries = []; times = []; sends = []; fresh = 0 }

  -- The second round never meets 0 again.
  pub generate_id : TimeoutQueue A → Option (ℕ × TimeoutQueue A)
  generate_id q = do u ← next_id 2 q.uniq_id; some (u, record q { uniq_id = u })

  pub send_list_empty : TimeoutQueue A → Bool
  send_list_empty q = elim q.sends [ [] ↦ true | _ ∷ _ ↦ false ]

  pub get_send_list_size : TimeoutQueue A → ℕ
  get_send_list_size q = length q.sends

  pub size : TimeoutQueue A → ℕ
  size q = length q.entries

  -- `getSend(t)`: what `t` receives, if the list is not empty.
  pub get_send : TimeoutQueue A → Option (Option A)
  get_send q = elim (last q.sends) [
    | none ↦ some none
    | some (i, k) ↦ do
      info ← find k q.entries
      assert_that (not info.has_send)
      some (some info.ptr)
  ]

  mark_sent : PtrInfo A → PtrInfo A
  mark_sent info = record info { has_send = true }

  -- `popSend(del)`
  pub pop_send : Bool → TimeoutQueue A → Option (TimeoutQueue A)
  unfolding mark_sent erase_node
  pop_send del q = do
    (i, k) ← last q.sends
    info ← find k q.entries
    times ← if del then erase_node info.time_iter q.times else some q.times
    let entries = if del then without k q.entries else update k mark_sent q.entries
    some (record q { entries = entries; times = times; sends = drop_last q.sends })

  -- Entry `k` leaves the send list, if it is there, and `_data`.
  pub release : ℕ → TimeoutQueue A → Option (TimeoutQueue A)
  unfolding erase_node
  release k q = do
    info ← find k q.entries
    sends ← if info.has_send then some q.sends else erase_node info.send_iter q.sends
    some (record q { entries = without k q.entries; sends = sends })

  -- Entry `k` leaves all three containers, given its `PtrInfo`.
  pub unlink : ℕ → PtrInfo A → TimeoutQueue A → Option (TimeoutQueue A)
  unfolding release erase_node
  unlink k info q = do
    times ← erase_node info.time_iter q.times
    release k (record q { times = times })

  -- `get(uniqId, t, bErase)`
  pub get : ℕ → Bool → TimeoutQueue A → Option (Option A × TimeoutQueue A)
  unfolding unlink
  get k erases q = elim (find k q.entries) [
    | none ↦ some (none, q)
    | some info ↦ do q' ← if erases then unlink k info q else some q; some (some info.ptr, q')
  ]

  -- `erase(uniqId, t)`
  pub erase : ℕ → TimeoutQueue A → Option (Option A × TimeoutQueue A)
  unfolding unlink
  erase k q = elim (find k q.entries) [
    | none ↦ some (none, q)
    | some info ↦ do q' ← unlink k info q; some (some info.ptr, q')
  ]

  -- `push(ptr, uniqId, timeout, hasSend)`
  pub push : A → ℕ → ℕ → Bool → TimeoutQueue A → Bool × TimeoutQueue A
  unfolding insert_time
  push ptr k due has_send q = elim (find k q.entries) [
    | some info ↦ (false, q)
    | none ↦
        let info : PtrInfo A = record {
          ptr = ptr;
          has_send = has_send;
          time_iter = q.fresh;
          send_iter = suc q.fresh;
        } in
        (
          true,
          record q {
            entries = (k, info) ∷ q.entries;
            times = insert_time (q.fresh, record { due = due; data_iter = k }) q.times;
            sends = if has_send then q.sends else (suc q.fresh, k) ∷ q.sends;
            fresh = suc (suc q.fresh);
          },
        )
  ]

  -- The loop of `timeout()`, over the nodes of `_time` that are left.
  pub expire : ℕ → Keyed TimeNode → TimeoutQueue A → Option (TimeoutQueue A)
  unfolding release
  expire now [] q = some q
  expire now ((i, t) ∷ ts) q =
      if ltb now t.due
      then some q
      else release t.data_iter q >>= λ q'. expire now ts (record q' { times = ts })

  -- `timeout()` at the time `now`.
  pub timeout : ℕ → TimeoutQueue A → Option (TimeoutQueue A)
  unfolding expire
  timeout now q = expire now q.times q

  -- `timeout(t)`, given the nodes of `_time`.
  pub timeout_first : ℕ → Keyed TimeNode → TimeoutQueue A → Option (Option A × TimeoutQueue A)
  timeout_first now [] q = some (none, q)
  timeout_first now ((i, t) ∷ ts) q = if ltb now t.due then some (none, q) else do
    info ← find t.data_iter q.entries
    q' ← release t.data_iter q
    some (some info.ptr, record q' { times = ts })

  -- `timeout(t)` at the time `now`: what `t` receives, if the first entry has expired.
  pub timeout_one : ℕ → TimeoutQueue A → Option (Option A × TimeoutQueue A)
  unfolding timeout_first
  timeout_one now q = timeout_first now q.times q
