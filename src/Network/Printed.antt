-- ===== src/Network/Printed.antt =====
-- Where the texts stand in what `print_network_config` writes.
use atx_sys.Common.{
  drop-add, some, ℕ, ◌&&◌, Bool-cases, inl, inr, ◌+◌, ◌-◌, ◌≡◌, refl, ap, ◌++◌, Bytes, codes,
  length, drop, bytes_eq, bytes_eq_iff, arith, ◌==◌, ==_iff, take-append_self, drop-append_self,
  IsText,
}
use atx_sys.Json.{json_tok_value}
use atx_sys.Json.Layout.{Node, obj, str, member, no_members}
use atx_sys.Json.Tree.{reads, value_at}
use atx_sys.Network.{json_format}
use atx_sys.Network.Method.{Spans}
use atx_sys.Network.Parse.{settings_of}
use atx_sys.Json.{string}

-- The buffer reads `rest` from the position n on.
pub record At (buf : Bytes) (n : ℕ) (rest : Bytes) : Type 0 where
  pub dropped : drop n buf ≡ rest

At-move :
    {buf : Bytes} {n : ℕ} (l rest : Bytes) (k : ℕ)
    → k ≡ n + length l
    → At buf n (l ++ rest)
    → At buf k rest
At-move {buf} {n} l rest k e at = record {
  dropped = rw (e, drop-add n (length l) buf, at.dropped) (drop-append_self l rest);
}

bytes_eq-length : (s t : Bytes) → (length s == length t) && bytes_eq s t ≡ bytes_eq s t
bytes_eq-length s t = elim (Bool-cases (bytes_eq s t)) [
  | inl same ↦ rw (same, (==_iff (length s) (length t)).1 (ap length ((bytes_eq_iff s t).0 same)))
  | inr other ↦ ground arith
]

-- A span that holds a key reads the labels that equal the key.
reads-At :
    {buf : Bytes} {s : ℕ} (e : ℕ) (name rest label : Bytes)
    → e ≡ s + length name
    → At buf s (name ++ rest)
    → reads buf s e label ≡ bytes_eq name label
reads-At {buf} {s} e name rest label h at =
    let d : e - s ≡ length name = omega arith in
    rw (d, at.dropped, take-append_self name rest) (bytes_eq-length name label)

-- The document of `json_format`, for texts of these lengths.
abbrev pub config_node : ℕ → ℕ → ℕ → ℕ → ℕ → Node
config_node a b c d e = obj 0 (g0 + e + 3) (
    member 2 6
      (obj 8 (g0 + e + 2) (
        member 10 14 (str 17 (17 + a)) (
          member (17 + a + 3) (17 + a + 5) (str h0 (h0 + b)) (
            member (h0 + b + 3) (h0 + b + 5) (str i0 (i0 + c)) (
              member (i0 + c + 3) (i0 + c + 5) (str s0 (s0 + d))
                (member (s0 + d + 3) (s0 + d + 5) (str g0 (g0 + e)) no_members))))))
      no_members)
  where
    h0 : ℕ
    h0 = 17 + a + 8

    i0 : ℕ
    i0 = h0 + b + 8

    s0 : ℕ
    s0 = i0 + c + 8

    g0 : ℕ
    g0 = s0 + d + 8

module _ (m h i s g : Bytes) where
  abbrev pub from_g : Bytes
  from_g = g ++ codes "\"}}"

  abbrev pub from_s : Bytes
  from_s = s ++ (codes "\",\"gw\":\"" ++ from_g)

  abbrev pub from_i : Bytes
  from_i = i ++ (codes "\",\"sn\":\"" ++ from_s)

  abbrev pub from_h : Bytes
  from_h = h ++ (codes "\",\"ip\":\"" ++ from_i)

  abbrev pub from_m : Bytes
  from_m = m ++ (codes "\",\"hn\":\"" ++ from_h)

  abbrev pub text : Bytes
  text = json_format m h i s g

  abbrev pub h0 : ℕ
  h0 = 17 + length m + 8

  abbrev pub i0 : ℕ
  i0 = h0 + length h + 8

  abbrev pub s0 : ℕ
  s0 = i0 + length i + 8

  abbrev pub g0 : ℕ
  g0 = s0 + length s + 8

  At-start : At text 0 (codes "{\"ipv4\":{\"meth\":\"" ++ from_m)
  unfolding json_format
  At-start = record { dropped = refl }

  pub At-m : At text 17 from_m
  At-m = At-move (codes "{\"ipv4\":{\"meth\":\"") from_m 17 (omega arith) At-start

  -- Past a value, at the separator that follows it.
  At-after : {p : ℕ} (v rest : Bytes) → At text p (v ++ rest) → At text (p + length v) rest
  At-after {p} v rest at = At-move v rest (p + length v) refl at

  pub At-h : At text h0 from_h
  At-h = At-move (codes "\",\"hn\":\"") from_h h0 (omega arith) (At-after m _ At-m)

  pub At-i : At text i0 from_i
  At-i = At-move (codes "\",\"ip\":\"") from_i i0 (omega arith) (At-after h _ At-h)

  pub At-s : At text s0 from_s
  At-s = At-move (codes "\",\"sn\":\"") from_s s0 (omega arith) (At-after i _ At-i)

  pub At-g : At text g0 from_g
  At-g = At-move (codes "\",\"gw\":\"") from_g g0 (omega arith) (At-after s _ At-s)

  -- The two letters of a key, three bytes into a separator.
  reads-key :
      (p : ℕ) (v name rest label : Bytes)
      → length name ≡ 2
      → At text p (v ++ (codes "\",\"" ++ (name ++ rest)))
      → reads text (p + length v + 3) (p + length v + 5) label ≡ bytes_eq name label
  reads-key p v name rest label two at = reads-At (p + length v + 5) name rest label (omega arith) (
      At-move (codes "\",\"") (name ++ rest) (p + length v + 3) (omega arith)
        (At-after v (codes "\",\"" ++ (name ++ rest)) at))

  reads-ipv4 : (label : Bytes) → reads text 2 6 label ≡ bytes_eq (codes "ipv4") label
  reads-ipv4 label =
      reads-At 6 (codes "ipv4") _ label (omega arith)
        (At-move (codes "{\"") _ 2 (omega arith) At-start)

  reads-meth : (label : Bytes) → reads text 10 14 label ≡ bytes_eq (codes "meth") label
  reads-meth label =
      reads-At 14 (codes "meth") _ label (omega arith)
        (At-move (codes "{\"ipv4\":{\"") _ 10 (omega arith) At-start)

  abbrev pub whole : Node
  whole = config_node (length m) (length h) (length i) (length s) (length g)

  pub settings_of-format :
      settings_of text whole
      ≡ some (record {
        meth =
            json_tok_value text
              (record { type = string; start = 17; end = 17 + length m; size = 0 });
        hn =
            json_tok_value text
              (record { type = string; start = h0; end = h0 + length h; size = 0 });
        ip =
            json_tok_value text
              (record { type = string; start = i0; end = i0 + length i; size = 0 });
        sn =
            json_tok_value text
              (record { type = string; start = s0; end = s0 + length s; size = 0 });
        gw =
            json_tok_value text
              (record { type = string; start = g0; end = g0 + length g; size = 0 });
      })
  unfolding settings_of value_at bytes_eq
  settings_of-format = simp (
    reads-ipv4,
    reads-meth,
    λ (l : Bytes). reads-key 17 m (codes "hn") (codes "\":\"" ++ from_h) l refl At-m,
    λ (l : Bytes). reads-key h0 h (codes "ip") (codes "\":\"" ++ from_i) l refl At-h,
    λ (l : Bytes). reads-key i0 i (codes "sn") (codes "\":\"" ++ from_s) l refl At-i,
    λ (l : Bytes). reads-key s0 s (codes "gw") (codes "\":\"" ++ from_g) l refl At-s,
  )

pub Spans-At :
    {buf : Bytes} {p : ℕ} (v rest : Bytes)
    → IsText v
    → At buf p (v ++ rest)
    → Spans
        (json_tok_value buf (record { type = string; start = p; end = p + length v; size = 0 }))
        v
unfolding json_tok_value
Spans-At {buf} {p} v rest t at = record {
  text = t;
  span = omega arith;
  post = rest;
  reads = at.dropped;
}
