-- ===== src/Timers/Tests.antt =====
-- The timer queue of rpc/timer/timer_queue_rbtree.cpp on concrete inputs.
use yamq.Prelude.{
  pos, ℕ, ◌+◌, ◌^◌, ◌≤◌, ◌≡◌, refl, none, some, [], ◌∷◌, ◌==◌, if◌then◌else◌, arith, find, put_key,
  erase, ◌>>=◌,
}
use yamq.RbTree.{red, black, Node}
use yamq.RbTree.Shape.{Heap, Nodes, leaf, node, cell, tree, occ}
use yamq.RbTree.Balance.{entries}
use yamq.RbTree.IsTree.{IsTree}
use yamq.RbTree.Insertion.{entry}
use yamq.Timers.{Timer, TimerQueue, cancel_timer}
use yamq.Timers.Expiry.{Collected}
use yamq.Timers.Collect.{collect-Collected}

abbrev base : ℕ
base = 2 ^ 63

abbrev sentinel : Node
sentinel = record { left = 0; right = 0; parent = 0; col = black; key = 0; val = 0 }

-- Expiries 10 and 20, for the timers at 101 and 102.
abbrev two : Heap
two a =
    if a == 1
    then some (cell 9 2 9 black (entry (base + 10) 1 101))
    else if a == 2
    then some (cell 9 9 1 red (entry (base + 20) 2 102))
    else if a == 9
    then some sentinel
    else none

abbrev two_nodes : Nodes
two_nodes = node leaf black (entry (base + 10) 1 101) (node leaf red (entry (base + 20) 2 102) leaf)

two_distinct : (a : ℕ) → occ a two_nodes + 0 ≤ 1
two_distinct a = ground arith

two_is_tree : IsTree (tree 9 two 1) two_nodes
unfolding entries
two_is_tree = record {
  focus = record {
    sentinel = record { node = sentinel; at = refl; is_black = refl };
    inside = (refl, tt, (refl, tt, tt));
    outside = refl;
    distinct = two_distinct;
    apart = refl;
  };
  blacks = 1;
  rules = (refl, (refl, refl, refl, refl));
  dark = refl;
  ascending = omega arith;
}

abbrev timer : ℕ → ℕ → ℕ → Timer
timer id expire attach = record {
  id = id;
  expire = expire;
  time = 5;
  interval = 1;
  elapse = 1;
  cb = 7;
  attach = attach;
}

abbrev queue : TimerQueue
queue = record {
  tree = tree 9 two 1;
  timers = (101, timer 1 10 1) ∷ (102, timer 2 20 2) ∷ (103, timer 3 0 0) ∷ [];
  ref = (1, 101) ∷ (2, 102) ∷ (3, 103) ∷ [];
  slot = pos 3;
  own_epoch = 1000;
  armed = [];
  clock = record { sec = 0; nsec = 1003 } ∷ [];
  mallocs = (3, sentinel) ∷ [];
  news = [];
}

collect-Collected_example :
    Collected 5 4 15 queue (entry (base + 10) 1 101 ∷ entry (base + 20) 2 102 ∷ [])
unfolding entries find
collect-Collected_example =
    collect-Collected 5 4 15 queue two_nodes _ two_is_tree refl
      (
        record { timer = timer 1 10 1; found = refl; key = refl; fits = omega arith },
        (record { timer = timer 2 20 2; found = refl; key = refl; fits = omega arith }, tt),
      )
      (omega arith) (omega arith)

-- A timer that is cancelled keeps its entry in `_ref`: to cancel it again reads what was deleted.
cancel_twice : (cancel_timer 5 queue 3 >>= λ (b, q). cancel_timer 5 q 3) ≡ none
unfolding cancel_timer find put_key erase
cancel_twice = refl
