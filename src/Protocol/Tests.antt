-- ===== src/Protocol/Tests.antt =====
-- A run of two threads on one object: thread 1 counts a link and stops, thread 2 links after it.
use sosp_paper19_ae.Layout.{
  pack_ref_info, get_lcid_from_info, get_ref_cnt_from_info, get_lenum_from_info,
}
use sosp_paper19_ae.Protocol.Steps.{Reach-Inv}
use sosp_paper19_ae.Protocol.Inv.{Inv}
use sosp_paper19_ae.Base.{◌+◌, ◌≡◌, refl, inl, true, false, arith, ◌==◌, if◌then◌else◌}
use sosp_paper19_ae.Protocol.{
  Info, link, unlink, idle, System, call, load, see, log, cas_win, note, era_after_note, new_cnt,
  IsStart, Reach, begin, next, counted_word,
}
use sosp_paper19_ae.Protocol.Count.{all, linking, unlinking}
use sosp_paper19_ae.Protocol.Exact
use sosp_paper19_ae.Protocol.Exact.{Run, count_exact}
use sosp_paper19_ae.Protocol.Recovery.{monitor_decides, logged-nothing_to_redo, counted-redo}

-- The object 0 was made by thread 1 in era 1.
abbrev initial : System
initial = record {
  info = λ o. record { lcid = 1; cnt = 1; lenum = 1 };
  eras = λ x y. if x == y then 2 else 0;
  pc = λ t. idle;
}

initial-IsStart : IsStart initial
initial-IsStart = record {
  all_idle = λ t. refl;
  left_eras = λ o. omega arith;
  seen_eras = λ x y ne. ground arith;
  cnt_lt = λ o. omega arith;
  era_lt = λ t. ground arith;
}

abbrev word : Info
word = record { lcid = 1; cnt = 1; lenum = 1 }

record Reached : Type 0 where
  state : System
  reach : Reach state

-- Thread 1 up to its log.
log_one : Reached
unfolding note era_after_note
log_one = record {
  state = _;
  reach =
      next 1
        (next 1
          (next 1 (next 1 (begin initial-IsStart) (omega arith) (call link 0 refl) tt) (omega arith)
            (load link 0 refl) tt)
          (omega arith) (see link 0 word 2 refl) tt)
        (omega arith) (log link 0 word 2 refl) tt;
}

count_one : Reached
unfolding log_one new_cnt counted_word pack_ref_info get_lcid_from_info get_ref_cnt_from_info
    get_lenum_from_info
count_one = record {
  state = _;
  reach = next 1 log_one.reach (omega arith) (cas_win link 0 word 2 refl refl) (omega arith);
}

abbrev word_one : Info
word_one = record { lcid = 1; cnt = 2; lenum = 2 }

-- Thread 2 overwrites the count of thread 1, of which it has taken note.
count_two : Reached
unfolding count_one note era_after_note new_cnt counted_word pack_ref_info get_lcid_from_info
    get_ref_cnt_from_info get_lenum_from_info
count_two = record {
  state = _;
  reach =
      next 2
        (next 2
          (next 2
            (next 2 (next 2 count_one.reach (omega arith) (call unlink 0 refl) tt) (omega arith)
              (load unlink 0 refl) tt)
            (omega arith) (see unlink 0 word_one 2 refl) tt)
          (omega arith) (log unlink 0 word_one 2 refl) tt)
        (omega arith) (cas_win unlink 0 word_one 2 refl refl) (omega arith);
}

count_two_word : (count_two.state.info 0).lcid ≡ 2
unfolding count_two counted_word new_cnt pack_ref_info get_lcid_from_info
count_two_word = refl

logged-nothing_to_redo_example : monitor_decides log_one.state 1 0 2 ≡ false
unfolding log_one
logged-nothing_to_redo_example =
    logged-nothing_to_redo log_one.reach 1 0 {op = link} {w = word} refl

counted-redo_example : monitor_decides count_two.state 1 0 2 ≡ true
unfolding count_two
counted-redo_example = counted-redo count_two.reach 1 0 {op = link} (inl refl)

-- One reference leads to each object at the start. Thread 1 has counted a link and not written it.
record Ran : Type 0 where
  state : System
  run : Run state (λ o. 1)

link_one : Ran
unfolding note era_after_note
link_one = record {
  state = _;
  run =
      Exact.next 1
        (Exact.next 1
          (Exact.next 1
            (Exact.next 1
              (Exact.next 1 (Exact.begin initial-IsStart (λ o. refl)) (omega arith)
                (call link 0 refl) tt)
              (omega arith) (load link 0 refl) tt)
            (omega arith) (see link 0 word 2 refl) tt)
          (omega arith) (log link 0 word 2 refl) tt)
        (omega arith) (cas_win link 0 word 2 refl refl) (omega arith);
}

count_exact_example :
    (link_one.state.info 0).cnt + all (unlinking 0) link_one.state
    ≡ 1 + all (linking 0) link_one.state
count_exact_example = count_exact link_one.run 0

Reach-Inv_example : Inv log_one.state
Reach-Inv_example = Reach-Inv log_one.reach
