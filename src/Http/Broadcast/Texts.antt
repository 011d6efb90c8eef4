-- ===== src/Http/Broadcast/Texts.antt =====
-- The texts of the callbacks of an update's progress: when they are whole and without a directive.
use atx_sys.Common.{
  ℕ, zero, suc, ◌+◌, ◌>>=◌, ◌/◌, ◌%◌, ◌≤◌, ◌<◌, ◌≡◌, refl, ap, ◌∙◌, Bool, true, List, [], ◌∷◌, ◌++◌,
  ltb, ◌==◌, ◌&&◌, not, length, length-append, Bytes, codes, decimal, digits_fuel, ok, arith,
}
use atx_sys.Http.Format.{IsPlain}
use atx_sys.Http.Broadcast.{
  notice_text, quoted, status_start, source_start, info_start, numbered, step_json,
}
use atx_sys.Updater.Progress.{
  Notice, on_status, on_source, on_info, on_step, nonblocking, updater_progress_status_message,
  updater_progress_source_message, entry_at, status_messages, source_messages,
}

-- The enumerations hold the value; the info has no percent sign and fits with its frame.
abbrev pub IsTellable : Notice → Type 0
IsTellable (on_status s) = s < 9
IsTellable (on_source s) = s < 5
IsTellable (on_info i) = IsPlain i × (length i ≤ 480)
IsTellable (on_step name s t p) = Unit
IsTellable (nonblocking h) = Unit

IsPlain-append : (s t : Bytes) → IsPlain s → IsPlain t → IsPlain (s ++ t)
IsPlain-append [] t h k = k
IsPlain-append (c ∷ s) t h k = (h.0, h.1, IsPlain-append s t h.2 k)

-- The test of a literal.
abbrev is_plain : Bytes → Bool
is_plain [] = true
is_plain (c ∷ s) = ltb 0 c && (not (c == b'%') && is_plain s)

is_plain→IsPlain : (s : Bytes) → is_plain s ≡ true → IsPlain s
is_plain→IsPlain [] h = tt
is_plain→IsPlain (c ∷ s) h = ground (arith, is_plain→IsPlain s)

IsPlain-between :
    (l s r : Bytes) → is_plain l ≡ true → is_plain r ≡ true → IsPlain s → IsPlain (l ++ (s ++ r))
IsPlain-between l s r hl hr h =
    IsPlain-append l (s ++ r) (is_plain→IsPlain l hl) (IsPlain-append s r h (is_plain→IsPlain r hr))

length-between : (l s r : Bytes) → length (l ++ (s ++ r)) ≡ length l + length s + length r
length-between l s r = omega (arith, length-append l (s ++ r), length-append s r)

IsPlain-digits : (f n : ℕ) → IsPlain (digits_fuel f n)
unfolding digits_fuel
IsPlain-digits zero n = tt
IsPlain-digits (suc f) n =
    let before : IsPlain (digits_fuel f (n / 10)) = IsPlain-digits f (n / 10) in
    let last : IsPlain ((b'0' + n % 10) ∷ []) = (omega arith, omega arith, tt) in
    let both : IsPlain (digits_fuel f (n / 10) ++ (b'0' + n % 10) ∷ []) =
      IsPlain-append (digits_fuel f (n / 10)) ((b'0' + n % 10) ∷ []) before last in
    ground arith

length-digits : (f n : ℕ) → length (digits_fuel f n) ≤ f
unfolding digits_fuel
length-digits zero n = omega arith
length-digits (suc f) n =
    ground (
      arith,
      length-digits f (n / 10),
      length-append (digits_fuel f (n / 10)) ((b'0' + n % 10) ∷ []),
    )

-- The messages of an enumeration: each is plain and short.
abbrev are_messages : List Bytes → Bool
are_messages [] = true
are_messages (m ∷ ms) = is_plain m && (ltb (length m) 100 && are_messages ms)

IsMessage : Bytes → Type 0
IsMessage m = IsPlain m × (length m < 100)

are_messages-head : (m : Bytes) (ms : List Bytes) → are_messages (m ∷ ms) ≡ true → IsMessage m
unfolding IsMessage
are_messages-head m ms h = ground (arith, is_plain→IsPlain m)

are_messages-tail :
    (m : Bytes) (ms : List Bytes) → are_messages (m ∷ ms) ≡ true → are_messages ms ≡ true
are_messages-tail m ms h = ground arith

entry_at-IsMessage :
    (ms : List Bytes) (i : ℕ)
    → are_messages ms ≡ true
    → i < length ms
    → (m : Bytes) × (entry_at ms i ≡ ok m) × IsMessage m
entry_at-IsMessage [] i h lt = absurd (omega arith)
entry_at-IsMessage (m ∷ ms) zero h lt = (m, refl, are_messages-head m ms h)
entry_at-IsMessage (m ∷ ms) (suc i) h lt =
    entry_at-IsMessage ms i (are_messages-tail m ms h) (omega arith)

status_message-entry :
    (n : ℕ) → n < 9 → updater_progress_status_message n ≡ entry_at status_messages n
unfolding updater_progress_status_message
status_message-entry n h = ground arith

source_message-entry :
    (n : ℕ) → n < 5 → updater_progress_source_message n ≡ entry_at source_messages n
unfolding updater_progress_source_message
source_message-entry n h = ground arith

-- The callback prints a text that stays whole in its buffer, and that has no percent sign.
abbrev pub IsTold : Notice → Bytes → Type 0
IsTold n s = (notice_text n ≡ ok s) × IsPlain s × (length s ≤ 511)

-- A text between the literals of a format.
IsWhole-quoted :
    (start s : Bytes)
    → is_plain start ≡ true
    → length start < 30
    → IsPlain s
    → length s ≤ 480
    → IsPlain (quoted start s) × (length (quoted start s) ≤ 511)
IsWhole-quoted start s hl lt plain short =
    let size : length (quoted start s) ≡ length start + length s + 2 =
      length-between start s (codes "\"}") in
    (IsPlain-between start s (codes "\"}") hl refl plain, omega arith)

status-IsTold : (n : ℕ) → n < 9 → (s : Bytes) × IsTold (on_status n) s
unfolding notice_text IsMessage
status-IsTold n h =
    let (m, e, (plain, short)) = entry_at-IsMessage status_messages n refl h in
    let text : notice_text (on_status n) ≡ ok (quoted status_start m) =
      ap (λ r. r >>= λ k. ok (quoted status_start k)) (status_message-entry n h ∙ e) in
    let whole = IsWhole-quoted status_start m refl (omega arith) plain (omega arith) in
    (quoted status_start m, (text, whole.0, whole.1))

source-IsTold : (n : ℕ) → n < 5 → (s : Bytes) × IsTold (on_source n) s
unfolding notice_text IsMessage
source-IsTold n h =
    let (m, e, (plain, short)) = entry_at-IsMessage source_messages n refl h in
    let text : notice_text (on_source n) ≡ ok (quoted source_start m) =
      ap (λ r. r >>= λ k. ok (quoted source_start k)) (source_message-entry n h ∙ e) in
    let whole = IsWhole-quoted source_start m refl (omega arith) plain (omega arith) in
    (quoted source_start m, (text, whole.0, whole.1))

-- A text of at most so many bytes.
IsPlainWithin : ℕ → Bytes → Type 0
IsPlainWithin m s = IsPlain s × (length s ≤ m)

IsPlainWithin-numbered :
    (m : ℕ) (start : Bytes) (n : ℕ) (rest : Bytes)
    → is_plain start ≡ true
    → IsPlainWithin m rest
    → IsPlainWithin (length start + 10 + m) (numbered start n rest)
unfolding IsPlainWithin decimal
IsPlainWithin-numbered m start n rest h (plain, short) =
    let digits : IsPlain (digits_fuel 10 n) = IsPlain-digits 10 n in
    (
      IsPlain-append start (digits_fuel 10 n ++ rest) (is_plain→IsPlain start h)
          (IsPlain-append (digits_fuel 10 n) rest digits plain),
      omega (
        arith,
        length-append start (digits_fuel 10 n ++ rest),
        length-append (digits_fuel 10 n) rest,
        length-digits 10 n,
      ),
    )

is_plain→IsPlain-within : (s : Bytes) → is_plain s ≡ true → IsPlainWithin (length s) s
unfolding IsPlainWithin
is_plain→IsPlain-within s h = (is_plain→IsPlain s h, omega arith)

step-IsPlainWithin : (a b c : ℕ) → IsPlainWithin 73 (step_json a b c)
step-IsPlainWithin a b c =
    let end : IsPlainWithin 1 (codes "}") = is_plain→IsPlain-within (codes "}") refl in
    IsPlainWithin-numbered 41 (codes "{\"type\":\"step\",\"step\":") a
      (numbered (codes ",\"total\":") b (numbered (codes ",\"percent\":") c (codes "}"))) refl
      (IsPlainWithin-numbered 22 (codes ",\"total\":") b
        (numbered (codes ",\"percent\":") c (codes "}")) refl
        (IsPlainWithin-numbered 1 (codes ",\"percent\":") c (codes "}") refl end))

step-IsTold : (name : Bytes) (a b c : ℕ) → IsTold (on_step name a b c) (step_json a b c)
unfolding notice_text IsPlainWithin
step-IsTold name a b c = let (plain, short) = step-IsPlainWithin a b c in (refl, plain, omega arith)

pub IsTellable-IsTold : (n : Notice) → IsTellable n → (s : Bytes) × IsTold n s
unfolding notice_text
IsTellable-IsTold (on_status s) h = status-IsTold s h
IsTellable-IsTold (on_source s) h = source-IsTold s h
IsTellable-IsTold (on_info i) (plain, short) =
    let whole = IsWhole-quoted info_start i refl (omega arith) plain short in
    (quoted info_start i, (refl, whole.0, whole.1))
IsTellable-IsTold (on_step name s t p) h = (step_json s t p, step-IsTold name s t p)
IsTellable-IsTold (nonblocking h) u = ([], (refl, tt, omega arith))
