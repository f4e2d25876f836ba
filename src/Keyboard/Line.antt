-- ===== src/Keyboard/Line.antt =====
-- `keyboard_readline` of src/keyboard.c: the line that is edited; what the screen shows is left out.
use microkernel_os.Prelude.{
  ℕ, zero, ◌+◌, ◌-◌, ◌%◌, ◌^◌, ◌≤◌, ◌<◌, ◌≡◌, ◌∙◌, refl, true, not, ◌&&◌, ◌||◌, List, [], ◌∷◌,
  arith, ltb, leb, ◌==◌, if◌then◌else◌, Table, update, for_range, for_range_inv, if-intro,
}

pub record Line : Type 0 where
  pub buf : Table ℕ
  pub pos : ℕ
  pub len : ℕ

-- After a character the loop goes on with a line, or returns with the buffer.
pub data Reply : Type 0 where
  more : Line → Reply
  done : Table ℕ → Reply

-- `for (i = pos - 1; i < len - 1; i++) buf[i] = buf[i + 1];`
pub shift_left : Line → Table ℕ
shift_left l =
    for_range (l.len - l.pos) (l.pos - 1) (λ i (b : Table ℕ). update b i (b (i + 1))) l.buf

-- `for (i = len; i > pos; i--) buf[i] = buf[i - 1];`
pub shift_right : Line → Table ℕ
shift_right l =
    for_range (l.len - l.pos) 0 (λ j (b : Table ℕ). update b (l.len - j) (b (l.len - j - 1))) l.buf

pub erase_char : Line → Line
erase_char l =
    if ltb 0 l.pos then record { buf = shift_left l; pos = l.pos - 1; len = l.len - 1 } else l

pub insert_char : (c : ℕ) → Line → Line
insert_char c l = record { buf = update (shift_right l) l.pos c; pos = l.pos + 1; len = l.len + 1 }

pub key_left : Line → Line
key_left l = if ltb 0 l.pos then record l { pos = l.pos - 1 } else l

pub key_right : Line → Line
key_right l = if ltb l.pos l.len then record l { pos = l.pos + 1 } else l

-- The body of the loop; `c` is a byte.
pub edit : (max c : ℕ) → Line → Reply
edit max c l =
    if c == 10
    then done (update l.buf l.len 0)
    else if c == 8
    then more (erase_char l)
    else if c == 0x82
    then more (key_left l)
    else if c == 0x83
    then more (key_right l)
    else if c == 3 || c == 12
    then done (update l.buf 0 0)
    else if leb 32 c && (not (c == 127) && ltb l.len ((max + 2 ^ 32 - 1) % 2 ^ 32))
    then more (insert_char c l)
    else more l

-- The loop, over the characters that come; it may be left waiting for the next.
pub edit_all : (max : ℕ) → List ℕ → Line → Reply
edit_all max [] l = more l
edit_all max (c ∷ cs) l = elim (edit max c l) [ more l' ↦ edit_all max cs l' | done b ↦ done b ]

pub keyboard_readline : (max : ℕ) → List ℕ → Table ℕ → Reply
keyboard_readline max cs b = edit_all max cs (record { buf = b; pos = 0; len = 0 })

shift_left_lem :
    (l : Line) (x : ℕ)
    → l.pos ≤ l.len
    → zero < l.pos
    → shift_left l x ≡ (if leb (l.pos - 1) x && ltb x (l.len - 1) then l.buf (x + 1) else l.buf x)
unfolding shift_left
shift_left_lem l x le pos =
    (for_range_inv
        (λ n (b : Table ℕ).
          (y : ℕ) → b y ≡ (if leb (l.pos - 1) y && ltb y n then l.buf (y + 1) else l.buf y))
        (λ i (b : Table ℕ). update b i (b (i + 1))) (l.len - l.pos) (l.pos - 1) l.buf
        (λ n b lo hi h y. ground (arith, h y, h (n + 1))) (λ y. ground arith))
      x
    ∙ ground arith

shift_right_lem :
    (l : Line) (x : ℕ)
    → l.pos ≤ l.len
    → shift_right l x ≡ (if ltb l.pos x && leb x l.len then l.buf (x - 1) else l.buf x)
unfolding shift_right
shift_right_lem l x le =
    (for_range_inv
        (λ n (b : Table ℕ).
          (y : ℕ) → b y ≡ (if ltb (l.len - n) y && leb y l.len then l.buf (y - 1) else l.buf y))
        (λ j (b : Table ℕ). update b (l.len - j) (b (l.len - j - 1))) (l.len - l.pos) 0 l.buf
        (λ n b lo hi h y. ground (arith, h y, h (l.len - n - 1))) (λ y. ground arith))
      x
    ∙ ground arith

-- Typing a character puts it at the cursor and moves what stands behind.
pub insert_char_lem :
    (c : ℕ) (l : Line) (x : ℕ)
    → l.pos ≤ l.len
    → x ≤ l.len
    → (insert_char c l).buf x
      ≡ (if x == l.pos then c else if ltb l.pos x then l.buf (x - 1) else l.buf x)
unfolding insert_char
insert_char_lem c l x le lt = ground (arith, shift_right_lem l x le)

insert_char-pos : (c : ℕ) (l : Line) → (insert_char c l).pos ≡ l.pos + 1
unfolding insert_char
insert_char-pos c l = refl

insert_char-len : (c : ℕ) (l : Line) → (insert_char c l).len ≡ l.len + 1
unfolding insert_char
insert_char-len c l = refl

-- Backspace takes back what was typed: the line, its length and the cursor are as before.
pub erase_char-insert_char :
    (c : ℕ) (l : Line) (x : ℕ)
    → l.pos ≤ l.len
    → x < l.len
    → ((erase_char (insert_char c l)).buf x ≡ l.buf x)
      × ((erase_char (insert_char c l)).pos ≡ l.pos)
      × ((erase_char (insert_char c l)).len ≡ l.len)
unfolding erase_char
erase_char-insert_char c l x le lt =
    let typed : Line = insert_char c l in
    let p : typed.pos ≡ l.pos + 1 = insert_char-pos c l in
    let n : typed.len ≡ l.len + 1 = insert_char-len c l in
    let e : ltb 0 typed.pos ≡ true = ground (arith, p) in
    (
      rw e (
          shift_left_lem typed x (omega (arith, p, n)) (omega (arith, p))
          ∙ ground (
            arith,
            p,
            n,
            insert_char_lem c l x le (omega arith),
            insert_char_lem c l (x + 1) le (omega arith),
          )),
      rw e (omega (arith, p)),
      rw e (omega (arith, n)),
    )

-- The cursor is in the line, the line and the NUL behind it fit into the buffer of `max` bytes, and what lies
-- behind the buffer is as it was.
pub record IsLine (max : ℕ) (b : Table ℕ) (l : Line) : Type 0 where
  pub cursor : l.pos ≤ l.len
  pub fits : l.len < max
  pub outside : (x : ℕ) → max ≤ x → l.buf x ≡ b x

abbrev pub IsReply : (max : ℕ) (b : Table ℕ) → Reply → Type 0
IsReply max b (more l) = IsLine max b l
IsReply max b (done b') = (x : ℕ) → max ≤ x → b' x ≡ b x

erase_char-IsLine :
    (max : ℕ) (b : Table ℕ) (l : Line) → IsLine max b l → IsLine max b (erase_char l)
unfolding erase_char
erase_char-IsLine max b l v =
    if-intro (IsLine max b) (ltb 0 l.pos) _ _
      (λ e. record {
        cursor = ground (arith, v.cursor);
        fits = omega (arith, v.fits);
        outside = λ x lo.
            shift_left_lem l x v.cursor (ground (arith, e))
            ∙ ground (arith, v.outside x lo, v.fits);
      })
      (λ e. v)

insert_char-IsLine :
    (max c : ℕ) (b : Table ℕ) (l : Line)
    → l.len + 1 < max
    → IsLine max b l
    → IsLine max b (insert_char c l)
unfolding insert_char
insert_char-IsLine max c b l room v = record {
  cursor = omega (arith, v.cursor);
  fits = room;
  outside = λ x lo. ground (arith, shift_right_lem l x v.cursor, v.outside x lo, v.cursor);
}

edit-IsReply :
    (max c : ℕ) (b : Table ℕ) (l : Line)
    → max < 2 ^ 32
    → IsLine max b l
    → IsReply max b (edit max c l)
unfolding edit key_left key_right
edit-IsReply max c b l lt v =
    if-intro (IsReply max b) (c == 10) _ _ (λ e x lo. ground (arith, v.outside x lo, v.fits))
      (λ e.
        if-intro (IsReply max b) (c == 8) _ _ (λ e. erase_char-IsLine max b l v)
          (λ e.
            if-intro (IsReply max b) (c == 0x82) _ _
              (λ e.
                if-intro (IsLine max b) (ltb 0 l.pos) _ _
                  (λ e. record {
                    cursor = omega (arith, v.cursor);
                    fits = v.fits;
                    outside = v.outside;
                  })
                  (λ e. v))
              (λ e.
                if-intro (IsReply max b) (c == 0x83) _ _
                  (λ e.
                    if-intro (IsLine max b) (ltb l.pos l.len) _ _
                      (λ e. record {
                        cursor = ground (arith, e);
                        fits = v.fits;
                        outside = v.outside;
                      })
                      (λ e. v))
                  (λ e.
                    if-intro (IsReply max b) (c == 3 || c == 12) _ _
                      (λ e x lo. ground (arith, v.outside x lo, v.fits))
                      (λ e.
                        if-intro (IsReply max b)
                          (leb 32 c && (not (c == 127) && ltb l.len ((max + 2 ^ 32 - 1) % 2 ^ 32)))
                          _ _ (λ e. insert_char-IsLine max c b l (ground (arith, e, v.fits)) v)
                          (λ e. v))))))

edit_all-IsReply :
    (max : ℕ) (cs : List ℕ) (b : Table ℕ) (l : Line)
    → max < 2 ^ 32
    → IsLine max b l
    → IsReply max b (edit_all max cs l)
unfolding edit_all
edit_all-IsReply max [] b l lt v = v
edit_all-IsReply max (c ∷ cs) b l lt v =
    go (edit max c l) (λ l' h. edit_all-IsReply max cs b l' lt h) (edit-IsReply max c b l lt v)
  where
    go :
        (r : Reply)
        → ((l' : Line) → IsLine max b l' → IsReply max b (edit_all max cs l'))
        → IsReply max b r
        → IsReply max b (elim r [ more l' ↦ edit_all max cs l' | done b' ↦ done b' ])
    go (more l') rest h = rest l' h
    go (done b') rest h = h

-- Whatever is typed, with `max` not 0, `keyboard_readline` writes only into the `max` bytes of its buffer, and while it waits the
-- cursor is in the line and the line has room for the NUL.
pub keyboard_readline-IsReply :
    (max : ℕ) (cs : List ℕ) (b : Table ℕ)
    → zero < max
    → max < 2 ^ 32
    → IsReply max b (keyboard_readline max cs b)
unfolding keyboard_readline
keyboard_readline-IsReply max cs b room lt =
    edit_all-IsReply max cs b (record { buf = b; pos = 0; len = 0 }) lt
      (record { cursor = omega arith; fits = room; outside = λ x lo. refl })
