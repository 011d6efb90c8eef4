-- ===== src/Http/Broadcast/Deliver.antt =====
-- What a broadcast puts on each connection.
use atx_sys.Common.{
  ℕ, ◌≤◌, ◌<◌, ◌≡◌, refl, sym, ap, ◌∙◌, true, false, List, [], ◌∷◌, ◌++◌, map, ◌==◌, if◌then◌else◌,
  length, take, take-all, take-append_self, length-append, length-take_at_most, Bytes, ok, fault,
  bad_read, arith,
}
use atx_sys.Http.Broadcast.{Connection, send_frames, http_broadcast_json}

-- The text as one frame, on a websocket and nowhere else.
abbrev pub deliver : Bytes → Connection → Connection
deliver [] c = c
deliver (b ∷ s) c =
    let sent : Connection = record c { frames = c.frames ++ (b ∷ s) ∷ [] } in
    if c.is_websocket then sent else c

abbrev frame : Bytes → Connection → Connection
frame s c =
    let sent : Connection = record c { frames = c.frames ++ s ∷ [] } in
    if c.is_websocket then sent else c

send_frames-frame :
    (mem : Bytes) (len : ℕ) (cs : List Connection)
    → len ≤ length mem
    → send_frames mem len cs ≡ ok (map (frame (take len mem)) cs)
unfolding send_frames
send_frames-frame mem len [] h = refl
send_frames-frame mem len (c ∷ cs) h = ground (arith, send_frames-frame mem len cs h)

map-deliver_none : (cs : List Connection) → map (deliver []) cs ≡ cs
map-deliver_none [] = refl
map-deliver_none (c ∷ cs) = ap (c ∷◌) (map-deliver_none cs)

-- The buffer with a text that fits in it.
buffer-text : (text : Bytes) → length text < 1024 → take 1023 text ++ 0 ∷ [] ≡ text ++ 0 ∷ []
buffer-text text h = ap (◌++ 0 ∷ []) (take-all 1023 text (omega arith))

send_frames-text :
    (text : Bytes) (cs : List Connection)
    → length text < 1024
    → send_frames (take 1023 text ++ 0 ∷ []) (length text) cs ≡ ok (map (frame text) cs)
send_frames-text text cs h =
    let room : length text ≤ length (text ++ 0 ∷ []) = omega (arith, length-append text (0 ∷ [])) in
    ap (λ mem. send_frames mem (length text) cs) (buffer-text text h)
    ∙ send_frames-frame (text ++ 0 ∷ []) (length text) cs room
    ∙ ap (λ s. ok (map (frame s) cs)) (take-append_self text (0 ∷ []))

pub http_broadcast_json-deliver :
    (text : Bytes) (cs : List Connection)
    → length text < 1024
    → http_broadcast_json text cs ≡ ok (map (deliver text) cs)
unfolding http_broadcast_json
http_broadcast_json-deliver [] cs h = ap ok (sym (map-deliver_none cs))
http_broadcast_json-deliver (b ∷ s) cs h = ground (arith, send_frames-text (b ∷ s) cs h)

==-pos : (n : ℕ) → 0 < n → (n == 0) ≡ false
==-pos n h = ground arith

-- The first websocket is enough.
send_frames-over :
    (mem : Bytes) (len : ℕ) (before : List Connection) (c : Connection) (behind : List Connection)
    → length mem < len
    → c.is_websocket ≡ true
    → send_frames mem len (before ++ c ∷ behind) ≡ fault bad_read
unfolding send_frames
send_frames-over mem len [] c behind h w = ground arith
send_frames-over mem len (d ∷ before) c behind h w =
    ground (arith, send_frames-over mem len before c behind h w)

-- A broadcast of a text of more than 1024 bytes to connections among which there is a websocket
-- reads outside of what was written to the buffer.
pub http_broadcast_json_long :
    (text : Bytes) (before : List Connection) (c : Connection) (behind : List Connection)
    → 1024 < length text
    → c.is_websocket ≡ true
    → http_broadcast_json text (before ++ c ∷ behind) ≡ fault bad_read
unfolding http_broadcast_json
http_broadcast_json_long text before c behind h w =
    let mem : Bytes = take 1023 text ++ 0 ∷ [] in
    let short : length mem < length text =
      omega (arith, length-append (take 1023 text) (0 ∷ []), length-take_at_most 1023 text) in
    let some_text : (length text == 0) ≡ false = ==-pos (length text) (omega arith) in
    ap
      (λ b.
        if b
        then ok (before ++ c ∷ behind)
        else send_frames mem (length text) (before ++ c ∷ behind))
      some_text
    ∙ send_frames-over mem (length text) before c behind short w
