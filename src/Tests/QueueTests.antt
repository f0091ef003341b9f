-- ===== src/Tests/QueueTests.antt =====
-- The queue at work.
use lisp_machine.Common.{ℕ, ◌≡◌, refl, [], ◌∷◌, arith}
use lisp_machine.Memory.Bump.{bump}
use lisp_machine.Queue.{Link, QueueState, push_link, queue_push, queue_pop, queue_last}
use lisp_machine.Queue.Refine.{Runs, start, pushed, queue_lem, newest, oldest}

abbrev no_links : ℕ → Link
no_links a = record { data_word = 0; next = 0; prev = 0 }

abbrev empty_queue : QueueState bump
empty_queue = record { heap = 8; links = no_links; queue = record { first = 0; last = 0 } }

abbrev with_one : QueueState bump
with_one = push_link bump 8 12 no_links empty_queue.queue 70

abbrev with_two : QueueState bump
with_two = push_link bump 12 16 with_one.links with_one.queue 71

run_of_two : Runs bump with_two (12 ∷ 8 ∷ []) (71 ∷ 70 ∷ [])
unfolding queue_push push_link
run_of_two =
    let one =
      pushed empty_queue with_one [] [] 70 8 (start 8 no_links) refl (λ h. omega (arith, h)) tt in
    pushed with_one with_two (8 ∷ []) (70 ∷ []) 71 12 one refl (λ h. omega (arith, h))
      ((λ h. omega (arith, h)), tt)

queue_lem_example :
    ((queue_pop bump with_two).0 ≡ newest (71 ∷ 70 ∷ []))
    × ((queue_last bump with_two).0 ≡ oldest (71 ∷ 70 ∷ []))
queue_lem_example = queue_lem bump (12 ∷ 8 ∷ []) (71 ∷ 70 ∷ []) run_of_two

last_of_one : (queue_last bump (queue_pop bump with_two).1).0 ≡ 70
unfolding queue_last queue_pop push_link
last_of_one = refl
