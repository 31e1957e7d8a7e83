-- ===== src/Ipc/Delivery/Bounded.antt =====
-- The bounds that the delivery of utils/ipc/channel.cpp keeps under every interleaving.
use puc.Base.{
  ℕ, ◌≤◌, ◌<◌, ◌≡◌, refl, Bool, true, false, List, [], ◌∷◌, ◌++◌, arith, ◌==◌, if◌then◌else◌,
  length, drop, length-append,
}
use puc.Base.Bytes.{Bytes}
use puc.Ipc.Delivery.{
  Delivery, new, attach_delivery, enqueue_region, fail_scheduled_delivery, begin_delivery,
  end_delivery, detach_delivery, stop_delivery,
}

pub data Region : Type 0 where
  attaching : Bool → Region
  enqueuing : Bytes → Region
  failing beginning ending detaching stopping : Region

unfoldable pub enter : ℕ → Region → Delivery → Delivery
enter depth (attaching active) d = (attach_delivery active d).1
enter depth (enqueuing message) d = (enqueue_region depth message d).2
enter depth failing d = fail_scheduled_delivery d
enter depth beginning d = (begin_delivery d).1
enter depth ending d = (end_delivery d).1
enter depth detaching d = detach_delivery d
enter depth stopping d = stop_delivery d

unfoldable pub run : ℕ → List Region → Delivery → Delivery
run depth [] d = d
run depth (r ∷ rs) d = run depth rs (enter depth r d)

-- No more messages than the depth wait; the pool is there exactly while attached; a detached or
-- destroyed channel holds no message.
pub record IsBounded (depth : ℕ) (d : Delivery) : Type 0 where
  pub within : length d.pending ≤ depth
  pub workers : d.has_workers ≡ d.attached
  pub empty_detached : d.attached ≡ false → length d.pending ≡ 0
  pub destroyed : d.destroying ≡ true → d.attached ≡ false

length-push :
    (depth : ℕ) (message : Bytes) (xs : List Bytes)
    → 0 < depth
    → length xs ≤ depth
    → length ((if length xs == depth then drop 1 xs else xs) ++ (message ∷ [])) ≤ depth
length-push depth message [] p l = ground (arith, p, l)
length-push depth message (x ∷ xs) p l =
    ground (arith, p, l, length-append xs (message ∷ []), length-append (x ∷ xs) (message ∷ []))

within-enqueue :
    (depth : ℕ) (message : Bytes) (d : Delivery)
    → 0 < depth
    → IsBounded depth d
    → IsBounded depth (enqueue_region depth message d).2
unfolding enqueue_region
within-enqueue depth message d p b = record {
  within = ground (arith, b.within, length-push depth message d.pending p b.within);
  workers = ground (arith, b.workers);
  empty_detached = λ e. ground (arith, e, b.empty_detached);
  destroyed = λ e. ground (arith, e, b.destroyed);
}

enter-IsBounded :
    (depth : ℕ) (r : Region) (d : Delivery)
    → 0 < depth
    → IsBounded depth d
    → IsBounded depth (enter depth r d)
unfolding enter attach_delivery fail_scheduled_delivery begin_delivery end_delivery detach_delivery
    stop_delivery
enter-IsBounded depth (attaching active) d p b = record {
  within = ground (arith, b.within);
  workers = ground (arith, b.workers);
  empty_detached = λ e. ground (arith, e, b.empty_detached);
  destroyed = λ e. ground (arith, e, b.destroyed);
}
enter-IsBounded depth (enqueuing message) d p b = within-enqueue depth message d p b
enter-IsBounded depth failing d p b = record {
  within = omega arith;
  workers = b.workers;
  empty_detached = λ e. refl;
  destroyed = b.destroyed;
}
enter-IsBounded depth beginning d p b = record {
  within = ground (arith, b.within);
  workers = ground (arith, b.workers);
  empty_detached = λ e. ground (arith, e, b.empty_detached);
  destroyed = λ e. ground (arith, e, b.destroyed);
}
enter-IsBounded depth ending d p b = record {
  within = ground (arith, b.within);
  workers = ground (arith, b.workers);
  empty_detached = λ e. ground (arith, e, b.empty_detached);
  destroyed = λ e. ground (arith, e, b.destroyed);
}
enter-IsBounded depth detaching d p b = record {
  within = omega arith;
  workers = refl;
  empty_detached = λ e. refl;
  destroyed = λ e. refl;
}
enter-IsBounded depth stopping d p b = record {
  within = omega arith;
  workers = refl;
  empty_detached = λ e. refl;
  destroyed = λ e. refl;
}

new-IsBounded : (depth : ℕ) → IsBounded depth new
new-IsBounded depth = record {
  within = omega arith;
  workers = refl;
  empty_detached = λ e. refl;
  destroyed = λ e. refl;
}

run_keeps-IsBounded :
    (depth : ℕ) (rs : List Region) (d : Delivery)
    → 0 < depth
    → IsBounded depth d
    → IsBounded depth (run depth rs d)
unfolding run
run_keeps-IsBounded depth [] d p b = b
run_keeps-IsBounded depth (r ∷ rs) d p b =
    run_keeps-IsBounded depth rs (enter depth r d) p (enter-IsBounded depth r d p b)

-- With a positive depth, after every sequence of locked regions from a new channel, no more messages
-- than the depth wait, the pool is there exactly while attached, a detached channel holds no message
-- and a destroyed one is detached.
pub run-IsBounded :
    (depth : ℕ) (regions : List Region) → 0 < depth → IsBounded depth (run depth regions new)
run-IsBounded depth regions p = run_keeps-IsBounded depth regions new p (new-IsBounded depth)
