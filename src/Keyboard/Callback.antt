-- ===== src/Keyboard/Callback.antt =====
-- What a scan code does to the characters that wait in src/keyboard.c.
use microkernel_os.Prelude.{
  ℕ, ◌+◌, ◌-◌, ◌≡◌, ◌⊎◌, refl, Bool, true, false, not, ◌&&◌, ◌||◌, inl, inr, leb, ◌==◌, if-intro,
  option_case-intro,
}
use microkernel_os.Keyboard.{
  Keyboard, buf_put, extended_key, release_key, plain_key, press_key, keyboard_callback,
}
use microkernel_os.Keyboard.Fifo.{IsRing, queue, offer, queue-buf_put}

-- At most one character is added, at the end, and a full buffer loses nothing.
pub record Touched (k k' : Keyboard) : Type 0 where
  pub ring : IsRing k'
  pub added : (queue k' ≡ queue k) ⊎ ((c : ℕ) × (queue k' ≡ offer c (queue k)))

-- The buffer of `k` with other modifiers.
abbrev with_flags : (shift ctrl alt caps ext : Bool) → Keyboard → Keyboard
with_flags shift ctrl alt caps ext k = record k {
  shift_held = shift;
  ctrl_held = ctrl;
  alt_held = alt;
  caps_lock = caps;
  extended = ext;
}

with_flags-Touched :
    (k : Keyboard) (shift ctrl alt caps ext : Bool)
    → IsRing k
    → Touched k (with_flags shift ctrl alt caps ext k)
with_flags-Touched k shift ctrl alt caps ext r = record {
  ring = record { head_lt = r.head_lt; tail_lt = r.tail_lt };
  added = inl refl;
}

buf_put-Touched :
    (k : Keyboard) (ext : Bool) (c : ℕ)
    → IsRing k
    → Touched k (buf_put c (record k { extended = ext }))
buf_put-Touched k ext c r =
    let one =
      queue-buf_put c (record k { extended = ext })
        (record { head_lt = r.head_lt; tail_lt = r.tail_lt }) in
    record { ring = one.0; added = inr (c, one.1) }

press_key-Touched : (sc : ℕ) (k : Keyboard) → IsRing k → Touched k (press_key sc k)
unfolding press_key
press_key-Touched sc k r =
    if-intro (Touched k) (sc == 0x2A || sc == 0x36) _ _
      (λ e. with_flags-Touched k true k.ctrl_held k.alt_held k.caps_lock k.extended r)
      (λ e.
        if-intro (Touched k) (sc == 0x1D) _ _
          (λ e. with_flags-Touched k k.shift_held true k.alt_held k.caps_lock k.extended r)
          (λ e.
            if-intro (Touched k) (sc == 0x38) _ _
              (λ e. with_flags-Touched k k.shift_held k.ctrl_held true k.caps_lock k.extended r)
              (λ e.
                if-intro (Touched k) (sc == 0x3A) _ _
                  (λ e.
                    with_flags-Touched k k.shift_held k.ctrl_held k.alt_held (not k.caps_lock)
                      k.extended r)
                  (λ e.
                    if-intro (Touched k) (leb 0x3B sc && leb sc 0x44) _ _
                      (λ e. buf_put-Touched k k.extended (0x90 + (sc - 0x3B)) r)
                      (λ e.
                        if-intro (Touched k) (sc == 0x57) _ _
                          (λ e. buf_put-Touched k k.extended 0x9A r)
                          (λ e.
                            if-intro (Touched k) (sc == 0x58) _ _
                              (λ e. buf_put-Touched k k.extended 0x9B r)
                              (λ e.
                                if-intro (Touched k) (plain_key sc k == 0) _ _
                                  (λ e. record { ring = r; added = inl refl })
                                  (λ e. buf_put-Touched k k.extended (plain_key sc k) r))))))))

-- Any scan code buf_put-Touched at most one character, behind those that wait, and keeps the others; where 255 wait it is
-- dropped.
pub keyboard_callback-Touched :
    (sc : ℕ) (k : Keyboard) → IsRing k → Touched k (keyboard_callback sc k)
unfolding keyboard_callback release_key
keyboard_callback-Touched sc k r =
    if-intro (Touched k) (sc == 0xE0) _ _
      (λ e. with_flags-Touched k k.shift_held k.ctrl_held k.alt_held k.caps_lock true r)
      (λ e.
        if-intro (Touched k) k.extended _ _
          (λ e.
            option_case-intro (Touched k) (extended_key sc) _ _
              (λ e. with_flags-Touched k k.shift_held k.ctrl_held k.alt_held k.caps_lock false r)
              (λ c e. buf_put-Touched k false c r))
          (λ e.
            if-intro (Touched k) (leb 0x80 sc) _ _
              (λ e. with_flags-Touched k _ _ _ k.caps_lock k.extended r)
              (λ e. press_key-Touched sc k r)))
