-- ===== src/Keyboard/Tests.antt =====
-- The keyboard of src/keyboard.c at concrete inputs.
use microkernel_os.Prelude.{◌+◌, ◌≡◌, true, false, [], ◌∷◌, arith}
use microkernel_os.Keyboard.{Keyboard}
use microkernel_os.Keyboard.Fifo.{IsRing, put, try, answers, answers-queue_answers, queue_answers}
use microkernel_os.Keyboard.Line.{
  Line, IsReply, keyboard_readline, keyboard_readline-IsReply, erase_char, insert_char,
  erase_char-insert_char,
}

-- An empty buffer at the end of its array, with Shift held.
abbrev idle : Keyboard
idle = record {
  key_buffer = λ i. 0;
  key_head = 255;
  key_tail = 255;
  shift_held = true;
  ctrl_held = false;
  alt_held = false;
  caps_lock = false;
  extended = false;
}

idle-IsRing : IsRing idle
idle-IsRing = record { head_lt = omega arith; tail_lt = omega arith }

answers-queue_answers_example :
    answers (put 97 ∷ put 98 ∷ try ∷ try ∷ try ∷ []) idle ≡ 97 ∷ 98 ∷ 0 ∷ []
unfolding queue_answers
answers-queue_answers_example =
    answers-queue_answers (put 97 ∷ put 98 ∷ try ∷ try ∷ try ∷ []) idle idle-IsRing

abbrev typed : Line
typed = record { buf = λ i. 120 + i; pos = 1; len = 2 }

erase_char-insert_char_example :
    ((erase_char (insert_char 97 typed)).buf 1 ≡ 121)
    × ((erase_char (insert_char 97 typed)).pos ≡ 1)
    × ((erase_char (insert_char 97 typed)).len ≡ 2)
erase_char-insert_char_example = erase_char-insert_char 97 typed 1 (omega arith) (omega arith)

keyboard_readline-IsReply_example :
    IsReply 3 (λ i. 7) (keyboard_readline 3 (97 ∷ 98 ∷ 99 ∷ 8 ∷ 10 ∷ []) (λ i. 7))
keyboard_readline-IsReply_example =
    keyboard_readline-IsReply 3 (97 ∷ 98 ∷ 99 ∷ 8 ∷ 10 ∷ []) (λ i. 7) (omega arith) (omega arith)
