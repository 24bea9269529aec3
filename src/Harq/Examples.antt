-- ===== src/Harq/Examples.antt =====
-- Tests of the HARQ entity, and its theorems at concrete inputs.
use nr5g_basic_scheduler.Base.{
  ℕ, ◌≡◌, ◌≤◌, ◌⊎◌, refl, Bool, true, false, none, some, [], ◌∷◌, map, get_elem?, set, ◌+◌,
}
use nr5g_basic_scheduler.Timing.{FrameTiming, absolute_slot}
use nr5g_basic_scheduler.Harq.{
  idle, pending, nack_received, HarqFeedback, Process, HarqEntity, can_retransmit, get_retx_process,
  fresh_from, fresh_entity, process_feedback, pending_count, next_rv,
}
use nr5g_basic_scheduler.Harq.Select.{NoneIn, get_retx_process_oldest}
use nr5g_basic_scheduler.Harq.Feedback.{process_feedback_at, pending_count-process_feedback}

abbrev at_slot : ℕ → FrameTiming
at_slot s = record { sfn = 0; slot = s; symbol = 0; slots_per_frame = 20 }

abbrev blank : Process
blank = record {
  id = 0;
  state = idle;
  tx_count = 0;
  rv_index = 0;
  ndi = false;
  tb_config = record {
    tb_size_bytes = 100;
    mcs_index = 10;
    mcs_table = 1;
    rv_index = 0;
    ndi = false;
    num_layers = 1;
  };
  allocation = record {
    rb_range = record { start_rb = 0; num_rbs = 10 };
    symbol_range = record { start_symbol = 2; num_symbols = 12 };
  };
  tx_time = at_slot 0;
  feedback_expected = at_slot 4;
}

abbrev waiting : Process
waiting = record blank { id = 1; state = pending; tx_count = 1; tx_time = at_slot 3 }

abbrev refused : Process
refused = record blank { id = 2; state = nack_received; tx_count = 1; tx_time = at_slot 2 }

-- An entity whose process 1 waits for feedback.
abbrev one_waiting : HarqEntity
unfolding fresh_entity fresh_from
one_waiting = set (fresh_entity blank) 1 waiting

abbrev feedback : Bool → HarqFeedback
feedback ack = record { harq_id = 1; ack = ack; dtx = false; feedback_time = at_slot 7 }

abbrev sent : ℕ → Process
sent n = record blank { tx_count = n }

rv_sequence : map (λ n. next_rv (sent n)) (0 ∷ 1 ∷ 2 ∷ 3 ∷ 4 ∷ []) ≡ 0 ∷ 2 ∷ 3 ∷ 1 ∷ 0 ∷ []
unfolding next_rv
rv_sequence = refl

exhausted : can_retransmit (record refused { tx_count = 4 }) ≡ false
unfolding can_retransmit
exhausted = refl

process_feedback_at_example :
    get_elem? (process_feedback one_waiting (feedback true)) 1
    ≡ some (record waiting { state = idle; tx_count = 0; rv_index = 0; ndi = true })
unfolding fresh_entity fresh_from
process_feedback_at_example = process_feedback_at one_waiting (feedback true) 1 waiting refl refl

pending_count-process_feedback_example :
    pending_count (process_feedback one_waiting (feedback true)) + 1 ≡ pending_count one_waiting
unfolding fresh_entity fresh_from
pending_count-process_feedback_example =
    pending_count-process_feedback one_waiting (feedback true) waiting refl refl

abbrev two_refused : HarqEntity
two_refused = refused ∷ record refused { id = 1; tx_time = at_slot 1 } ∷ []

get_retx_process_oldest_example :
    ((k : ℕ) × (p : Process) × (get_retx_process two_refused ≡ some (k, p))
      × (get_elem? two_refused k ≡ some p)
      × (can_retransmit p ≡ true)
      × ((j : ℕ) (q : Process)
          → get_elem? two_refused j ≡ some q
          → can_retransmit q ≡ true
          → absolute_slot p.tx_time ≤ absolute_slot q.tx_time))
    ⊎ ((get_retx_process two_refused ≡ none) × NoneIn can_retransmit two_refused)
get_retx_process_oldest_example = get_retx_process_oldest two_refused
