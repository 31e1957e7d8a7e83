-- ===== src/Ipc/Delivery.antt =====
-- The delivery of a channel with a maximum depth in utils/ipc/channel.cpp. Each function is one region that holds
-- the delivery mutex, so a sequence of them is an interleaving of the threads. Messages that await
-- delivery are `pending`; the worker pool is there or not.
pub mod Bounded
mod Tests
use puc.Base.{
  ℕ, zero, suc, ◌+◌, ◌-◌, ◌*◌, ◌/◌, ◌%◌, ◌^◌, ◌≤◌, ◌<◌, ◌≡◌, refl, sym, ap, ap₂, subst, ◌∙◌, ◌≢◌,
  ◌↔◌, ◌⊎◌, inl, inr, Bool, true, false, not, ◌&&◌, ◌||◌, Option, none, some, List, [], ◌∷◌, ◌++◌,
  map, reverse, append-nil, append_assoc, reverse-append, reverse-cons, arith, ltb, leb, ◌==◌,
  if◌then◌else◌, ltb→lt, lt→ltb, leb→le, ==_iff, Bool-cases, Option-cases, and-eq-true, length,
  get_elem?, get_or, set, take, drop, concat, All, length-append, length-reverse, length-set,
  get_or-set_self, get_or-set_ne, get_or-append_left, get_or-append_length, All-append, All-map,
  lookup, contains, emplace, modify, Eq, lookup-append, lookup-emplace, lookup-modify,
}
use puc.Base.Sorting.{count, sort, count-append, count-sort, length-sort}
use puc.Base.Bytes.{Bytes, bytes_eq, bytes_eq_refl, bytes_eq_iff, bytes}
use puc.Ipc.{Status, ok, invalid_argument, channel_unavailable}

pub record Delivery : Type 0 where
  pub pending : List Bytes
  pub has_workers : Bool
  pub attached : Bool
  pub scheduled : Bool
  pub destroying : Bool
  pub dropped_count : ℕ

abbrev pub new : Delivery
new = record {
  pending = [];
  has_workers = false;
  attached = false;
  scheduled = false;
  destroying = false;
  dropped_count = 0;
}

unfoldable pub attach_delivery : Bool → Delivery → Status × Delivery
attach_delivery active d =
    if not active || d.destroying || d.attached
    then (invalid_argument, d)
    else (ok, record d { has_workers = true; attached = true })

-- The oldest message makes room.
abbrev pub evict : ℕ → Delivery → Delivery
evict depth d =
    if length d.pending == depth
    then record d { pending = drop 1 d.pending; dropped_count = (d.dropped_count + 1) % 2 ^ 64 }
    else d

abbrev pub push : Bytes → Delivery → Delivery
push message d = record d { pending = d.pending ++ (message ∷ []) }

-- The region of `enqueue`: the status so far, whether a job is to be scheduled, and the state.
unfoldable pub enqueue_region : ℕ → Bytes → Delivery → Status × Bool × Delivery
enqueue_region depth message d =
    let pushed = push message (evict depth d) in
    if d.destroying || not d.attached
    then (channel_unavailable, false, d)
    else if pushed.scheduled
    then (ok, false, pushed)
    else if pushed.has_workers
    then (ok, true, record pushed { scheduled = true })
    else (channel_unavailable, false, record pushed { pending = [] })

unfoldable pub fail_scheduled_delivery : Delivery → Delivery
fail_scheduled_delivery d = record d { pending = []; scheduled = false }

-- The first region of `deliver_one`: the message, if there is one to deliver.
unfoldable pub begin_delivery : Delivery → Option Bytes × Delivery
begin_delivery d =
    if d.destroying || not d.attached
    then (none, record d { scheduled = false })
    else elim d.pending [
      | [] ↦ (none, record d { scheduled = false })
      | message ∷ rest ↦ (some message, record d { pending = rest })
    ]

-- The second region, after the callbacks: whether the next job is to be scheduled.
unfoldable pub end_delivery : Delivery → Bool × Delivery
end_delivery d =
    if d.destroying || not d.attached
    then (false, record d { scheduled = false })
    else elim d.pending [
      | [] ↦ (false, record d { scheduled = false })
      | _ ∷ _ ↦
          if d.has_workers then (true, d) else (false, record d { pending = []; scheduled = false })
    ]

-- The wait for a scheduled job that follows in the two functions below is left out.
unfoldable pub detach_delivery : Delivery → Delivery
detach_delivery d = record d { attached = false; pending = []; has_workers = false }

unfoldable pub stop_delivery : Delivery → Delivery
stop_delivery d = record d {
  destroying = true;
  attached = false;
  pending = [];
  has_workers = false;
}
