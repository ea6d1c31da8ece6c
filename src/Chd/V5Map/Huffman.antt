-- ===== src/Chd/V5Map/Huffman.antt =====
-- mame-chd-src/src/lib/util/huffman.h and huffman.cpp: encode_one, decode_one and the lookup table. The
-- codes of the symbols, which the encoder computes from a histogram and exports, are an argument.
use libchdman_rs.Prelude.{
  ℕ, ◌+◌, ◌-◌, ◌*◌, ◌/◌, ◌%◌, ◌^◌, ◌≡◌, ◌<◌, ◌≤◌, sym, ap, ◌∙◌, List, [], ◌∷◌, arith,
}
use libchdman_rs.Bytes.{Buffer, byte}
use libchdman_rs.Bitstream.{BitsIn, BitsOut, write, peek, remove}
use libchdman_rs.Bitstream.Window.{window, window_below, window-split}
use libchdman_rs.Bitstream.Filling.{At}
use libchdman_rs.Bitstream.Reading.{peek-At, remove-At}

-- node_t: m_bits and m_numbits.
pub record Node : Type 0 where
  pub m_bits : ℕ
  pub m_numbits : ℕ

-- huffman_context_base: m_huffnode, m_lookup and m_maxbits.
pub record Context : Type 0 where
  pub m_huffnode : ℕ → Node
  pub m_lookup : List ℕ
  pub m_maxbits : ℕ

unfoldable pub encode_one : Context → BitsOut → ℕ → BitsOut
encode_one h bitbuf symbol =
    let node = h.m_huffnode symbol in write bitbuf node.m_bits node.m_numbits

unfoldable pub encode_all : Context → BitsOut → List ℕ → BitsOut
unfolding encode_one
encode_all h bitbuf [] = bitbuf
encode_all h bitbuf (x ∷ xs) = encode_all h (encode_one h bitbuf x) xs

unfoldable pub decode_one : Context → Buffer → BitsIn → ℕ × BitsIn
decode_one h src bitbuf =
    let (bits, filled) = peek src bitbuf h.m_maxbits in
    let lookup = byte h.m_lookup bits in (lookup / 2 ^ 5, remove filled (lookup % 2 ^ 5))

-- The table has the symbol and its length at each index that begins with the symbol's code.
pub record IsLookup (h : Context) (x : ℕ) : Type 0 where
  pub short : (h.m_huffnode x).m_numbits ≤ h.m_maxbits
  pub brief : h.m_maxbits ≤ 25
  pub fits : (h.m_huffnode x).m_numbits < 32
  pub found :
      (r : ℕ)
      → r < 2 ^ (h.m_maxbits - (h.m_huffnode x).m_numbits)
      → byte h.m_lookup (
          (h.m_huffnode x).m_bits
            % 2 ^ (h.m_huffnode x).m_numbits
            * 2 ^ (h.m_maxbits - (h.m_huffnode x).m_numbits)
          + r)
        ≡ x * 2 ^ 5 + (h.m_huffnode x).m_numbits

module _ (h : Context) (src : Buffer) (p : ℕ) (s : BitsIn) (x : ℕ) (at : At src p s)
    (table : IsLookup h x)
    (coded : window src p (h.m_huffnode x).m_numbits
      ≡ (h.m_huffnode x).m_bits % 2 ^ (h.m_huffnode x).m_numbits) where
  abbrev n : ℕ
  n = (h.m_huffnode x).m_numbits

  looked_up : byte h.m_lookup (peek src s h.m_maxbits).0 ≡ x * 2 ^ 5 + n
  looked_up =
      let rest : ℕ = h.m_maxbits - n in
      let (value, after, there) = peek-At src p s h.m_maxbits at table.brief in
      let all : n + rest ≡ h.m_maxbits = omega (arith, table.short) in
      let parts : (peek src s h.m_maxbits).0
          ≡ (h.m_huffnode x).m_bits % 2 ^ n * 2 ^ rest + window src (p + n) rest =
        value
        ∙ ap (window src p) (sym all)
        ∙ window-split src p n rest
        ∙ ap (λ z. z * 2 ^ rest + window src (p + n) rest) coded in
      ap (byte h.m_lookup) parts
      ∙ table.found (window src (p + n) rest) (window_below src (p + n) rest)

  -- Where the data goes on with the code of a symbol, the symbol is decoded, and its bits are taken.
  pub decode_one-coded :
      p + n + 40 ≤ 2 ^ 35 → ((decode_one h src s).0 ≡ x) × At src (p + n) (decode_one h src s).1
  unfolding decode_one
  decode_one-coded near =
      let (value, after, there) = peek-At src p s h.m_maxbits at table.brief in
      let taken : byte h.m_lookup (peek src s h.m_maxbits).0 % 2 ^ 5 ≡ n =
        omega (arith, looked_up, table.fits) in
      let back =
        remove-At src p (peek src s h.m_maxbits).1 n after (omega (arith, there, table.short))
          near in
      (omega (arith, looked_up, table.fits), rw taken back)
