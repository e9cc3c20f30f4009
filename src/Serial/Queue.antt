-- ===== src/Serial/Queue.antt =====
-- The output buffer of the serial driver is a first-in first-out queue of at most 1023 bytes.
use marimba.Base.{
  length-append, ap₂, true, append-nil, sym, ◌∙◌, zero, refl, append_assoc, inr, ap, inl, suc, ◌≤◌,
  ◌==◌, Bool-cases, [], ◌%◌, ◌++◌, length-set, ltb, ◌∷◌, ◌-◌, if◌then◌else◌, ◌+◌, get_or, arith,
  length, ◌≡◌, ◌<◌,
}
use marimba.Base.Window.{window, length-window, window-set}
use marimba.Serial.{
  ser_write_str, ser_write_from, ℕ, List, SerialDevice, producer_add_char, consumer_write_next,
  x86_write, x86_serial_isr, is_transmit_empty,
}

pub record IsValid (dev : SerialDevice) : Type 0 where
  pub size : length dev.output_buff ≡ 1024
  pub producer : dev.out_producer_pos < 1024
  pub consumer : dev.out_consumer_pos < 1024

-- How many bytes wait, and the bytes, the oldest first.
abbrev pub waiting : SerialDevice → ℕ
waiting dev = (dev.out_producer_pos + 1024 - dev.out_consumer_pos) % 1024

abbrev pub contents : SerialDevice → List ℕ
contents dev = window 1024 dev.output_buff dev.out_consumer_pos (waiting dev)

-- A queue of bytes with room for `cap`: a byte that finds no room is dropped.
abbrev pub put : ℕ → List ℕ → ℕ → List ℕ
put cap q c = if ltb (length q) cap then q ++ c ∷ [] else q

window-suc :
    (buf : List ℕ) (h n : ℕ)
    → 0 < n
    → window 1024 buf h n ≡ get_or buf h 0 ∷ window 1024 buf ((h + 1) % 1024) (n - 1)
window-suc buf h zero p = absurd (omega arith)
window-suc buf h (suc n) p = ap (λ k. window 1024 buf h (suc k)) (omega arith)

pub length-contents : (dev : SerialDevice) → length (contents dev) ≡ waiting dev
length-contents dev = length-window 1024 dev.output_buff dev.out_consumer_pos (waiting dev)

-- producer_add_char puts the byte into the queue, or drops it when 1023 bytes wait, and sends
-- nothing.
pub producer_add_char-put :
    (dev : SerialDevice) (c : ℕ)
    → IsValid dev
    → let dev' = producer_add_char dev c in
      IsValid dev' × (contents dev' ≡ put 1023 (contents dev) c) × (dev'.sent ≡ dev.sent)
unfolding producer_add_char
producer_add_char-put dev c v = ground (
  arith,
  length-contents dev,
  length-set dev.output_buff dev.out_producer_pos c,
  window-set 1024 dev.output_buff c (waiting dev) dev.out_consumer_pos dev.out_producer_pos,
)

-- consumer_write_next sends the oldest waiting byte, and does nothing when none waits.
pub consumer_write_next-IsValid :
    (dev : SerialDevice)
    → IsValid dev
    → let dev' = consumer_write_next dev in
      IsValid dev'
      × (dev'.sent ++ contents dev' ≡ dev.sent ++ contents dev)
      × (waiting dev' ≡ waiting dev - 1)
unfolding consumer_write_next
consumer_write_next-IsValid dev v =
    elim (Bool-cases (dev.out_consumer_pos == dev.out_producer_pos)) [
      | inl empty ↦ rw empty (v, refl, ground arith)
      | inr some_wait ↦
          let one_less : (dev.out_producer_pos + 1024 - (dev.out_consumer_pos + 1) % 1024) % 1024
              ≡ waiting dev - 1 =
            ground arith in
          rw some_wait (
            ground arith,
            rw
                (
                  window-suc dev.output_buff dev.out_consumer_pos (waiting dev) (ground arith),
                  one_less,
                )
                (append_assoc dev.sent (get_or dev.output_buff dev.out_consumer_pos 0 ∷ []) _),
            ground arith,
          )
    ]

-- What a driver that has sent `sent` and holds the bytes `waiting` does with one more byte.
record Written (dev : SerialDevice) (cs : List ℕ) (dev' : SerialDevice) : Type 0 where
  pub valid : IsValid dev'
  pub stream : dev'.sent ++ contents dev' ≡ (dev.sent ++ contents dev) ++ cs
  pub held : waiting dev' ≤ waiting dev + length cs

x86_serial_isr-Written :
    (status : ℕ) (dev : SerialDevice) → IsValid dev → Written dev [] (x86_serial_isr status dev)
unfolding x86_serial_isr
x86_serial_isr-Written status dev v = elim (Bool-cases (is_transmit_empty status)) [
  | inl ready ↦
      let sent = consumer_write_next-IsValid dev v in
      rw ready (record {
        valid = sent.0;
        stream = sent.1 ∙ sym (append-nil (dev.sent ++ contents dev));
        held = omega (arith, sent.2);
      })
  | inr busy ↦ rw busy (record {
    valid = v;
    stream = sym (append-nil (dev.sent ++ contents dev));
    held = omega arith;
  })
]

-- `x86_write` adds the byte, and then does what the interrupt handler does.
x86_write-isr :
    (status : ℕ) (dev : SerialDevice) (c : ℕ)
    → x86_write status dev c ≡ x86_serial_isr status (producer_add_char dev c)
unfolding x86_write x86_serial_isr
x86_write-isr status dev c = refl

x86_write-Written :
    (status : ℕ) (dev : SerialDevice) (c : ℕ)
    → IsValid dev
    → waiting dev < 1023
    → Written dev (c ∷ []) (x86_write status dev c)
x86_write-Written status dev c v room =
    let (valid, queued, unsent) = producer_add_char-put dev c v in
    let fits : ltb (length (contents dev)) 1023 ≡ true = ground (arith, length-contents dev) in
    let grown : contents (producer_add_char dev c) ≡ contents dev ++ c ∷ [] =
      queued ∙ rw fits refl in
    let w = x86_serial_isr-Written status (producer_add_char dev c) valid in
    rw x86_write-isr (record {
      valid = w.valid;
      stream =
          w.stream
          ∙ append-nil _
          ∙ ap₂ ◌++◌ unsent grown
          ∙ sym (append_assoc dev.sent (contents dev) (c ∷ []));
      held = omega (
        arith,
        w.held,
        length-contents (producer_add_char dev c),
        length-contents dev,
        ap length grown,
        length-append {0} (contents dev) (c ∷ []),
      );
    })

ser_write_from-Written :
    (status : ℕ → ℕ) (i : ℕ) (dev : SerialDevice) (cs : List ℕ)
    → IsValid dev
    → waiting dev + length cs ≤ 1023
    → Written dev cs (ser_write_from status i dev cs)
unfolding ser_write_from
ser_write_from-Written status i dev [] v room = record {
  valid = v;
  stream = sym (append-nil _);
  held = omega arith;
}
ser_write_from-Written status i dev (c ∷ cs) v room =
    let w = x86_write-Written (status i) dev c v (omega arith) in
    let rest =
      ser_write_from-Written status (i + 1) (x86_write (status i) dev c) cs w.valid
        (omega (arith, w.held)) in
    record {
      valid = rest.valid;
      stream =
          rest.stream
          ∙ ap (λ (q : List ℕ). q ++ cs) w.stream
          ∙ append_assoc (dev.sent ++ contents dev) (c ∷ []) cs;
      held = omega (arith, rest.held, w.held);
    }

-- SER_write_str with room in the buffer for the text: whatever the line status reads, the bytes
-- sent so far followed by those that wait are the earlier ones followed by the text, so no byte is
-- lost, repeated or reordered.
pub ser_write_str-stream :
    (status : ℕ → ℕ) (dev : SerialDevice) (str : List ℕ)
    → IsValid dev
    → waiting dev + length str ≤ 1023
    → let dev' = ser_write_str status dev str in
      IsValid dev' × (dev'.sent ++ contents dev' ≡ (dev.sent ++ contents dev) ++ str)
unfolding ser_write_str
ser_write_str-stream status dev str v room =
    let w = ser_write_from-Written status 0 dev str v room in (w.valid, w.stream)
