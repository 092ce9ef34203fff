-- ===== src/Sim/Hello.antt =====
-- transports/sim/node.py, `SimNode._hello_payloads`: a table of channels announced in several HELLO
-- messages. The payload that a HELLO with some channels has, which is JSON, is a parameter.
use espstation.Common.{
  ◌≤◌, ◌≡◌, ◌⊎◌, inl, inr, refl, ap, ◌∙◌, arith, List, [], ◌∷◌, ◌++◌, append_assoc, Bool, true,
  false, Bool-cases, ◌&&◌, ltb, if◌then◌else◌, Bytes, length, All, map, length-append,
}
use espstation.Protocol.Frames.{max_payload}

abbrev pub joined : {C : Type 0} → List (List C) → List C
joined [] = []
joined (chunk ∷ chunks) = chunk ++ joined chunks

module _ {C : Type 0} (payload : List C → Bytes) where
  -- `candidate` does not fit, and there is a chunk to send without it.
  abbrev overflows : List C → C → Bool
  overflows chunk ch = ltb max_payload (length (payload (chunk ++ ch ∷ []))) && ltb 0 (length chunk)

  -- The chunks of the loop, the last one included.
  chunks_from : List C → List C → List (List C)
  chunks_from chunk [] = chunk ∷ []
  chunks_from chunk (ch ∷ ndb) =
      let full = chunk ∷ chunks_from (ch ∷ []) ndb in
      let more = chunks_from (chunk ++ ch ∷ []) ndb in if overflows chunk ch then full else more

  unfoldable pub hello_chunks : List C → List (List C)
  unfolding chunks_from
  hello_chunks ndb = chunks_from [] ndb

  unfoldable pub hello_payloads : List C → List Bytes
  hello_payloads ndb = map payload (hello_chunks ndb)

  -- A chunk that fits in a frame, or that cannot be made smaller.
  abbrev pub Fits : List C → Type 0
  Fits chunk = (length (payload chunk) ≤ max_payload) ⊎ (length chunk ≤ 1)

  chunks_from-joined : (chunk ndb : List C) → joined (chunks_from chunk ndb) ≡ chunk ++ ndb
  unfolding chunks_from
  chunks_from-joined chunk [] = refl
  chunks_from-joined chunk (ch ∷ ndb) = elim (Bool-cases (overflows chunk ch)) [
    | inl over ↦ rw over (ap (◌++◌ chunk) (chunks_from-joined (ch ∷ []) ndb))
    | inr fits ↦
        rw fits (chunks_from-joined (chunk ++ ch ∷ []) ndb ∙ append_assoc chunk (ch ∷ []) ndb)
  ]

  chunk-Fits : (chunk : List C) (ch : C) → overflows chunk ch ≡ false → Fits (chunk ++ ch ∷ [])
  chunk-Fits [] ch e = inr (omega arith)
  chunk-Fits (c ∷ chunk) ch e = inl (ground arith)

  chunks_from-Fits : (chunk ndb : List C) → Fits chunk → All Fits (chunks_from chunk ndb)
  unfolding chunks_from
  chunks_from-Fits chunk [] h = (h, tt)
  chunks_from-Fits chunk (ch ∷ ndb) h = elim (Bool-cases (overflows chunk ch)) [
    | inl over ↦ rw over (h, chunks_from-Fits (ch ∷ []) ndb (inr (omega arith)))
    | inr fits ↦ rw fits (chunks_from-Fits (chunk ++ ch ∷ []) ndb (chunk-Fits chunk ch fits))
  ]

  overflow_some : (chunk : List C) (ch : C) → overflows chunk ch ≡ true → 1 ≤ length chunk
  overflow_some [] ch e = ground arith
  overflow_some (c ∷ chunk) ch e = omega arith

  chunks_from-some : (chunk ndb : List C) → 1 ≤ length (chunks_from chunk ndb)
  unfolding chunks_from
  chunks_from-some chunk [] = omega arith
  chunks_from-some chunk (ch ∷ ndb) = elim (Bool-cases (overflows chunk ch)) [
    | inl over ↦ rw over (omega arith)
    | inr fits ↦ rw fits (chunks_from-some (chunk ++ ch ∷ []) ndb)
  ]

  chunks_from-nonempty :
      (chunk ndb : List C)
      → 1 ≤ length (chunk ++ ndb)
      → All (λ c. 1 ≤ length c) (chunks_from chunk ndb)
  unfolding chunks_from
  chunks_from-nonempty chunk [] h = (omega (arith, h, length-append chunk []), tt)
  chunks_from-nonempty chunk (ch ∷ ndb) h = elim (Bool-cases (overflows chunk ch)) [
    | inl over ↦
        rw over (overflow_some chunk ch over, chunks_from-nonempty (ch ∷ []) ndb (omega arith))
    | inr fits ↦ rw fits (
        chunks_from-nonempty (chunk ++ ch ∷ []) ndb
          (omega (arith, length-append (chunk ++ ch ∷ []) ndb, length-append chunk (ch ∷ []))))
  ]

  -- A table of channels is announced whole, whatever the payloads are: the chunks of the HELLO
  -- messages, in order, are the table; there is at least one message; and each fits in a frame or has
  -- one channel or none.
  pub hello_chunks-whole :
      (ndb : List C)
      → (joined (hello_chunks ndb) ≡ ndb)
        × (1 ≤ length (hello_chunks ndb))
        × All Fits (hello_chunks ndb)
  unfolding hello_chunks
  hello_chunks-whole ndb = (
    chunks_from-joined [] ndb,
    chunks_from-some [] ndb,
    chunks_from-Fits [] ndb (inr (omega arith)),
  )

  -- No message of a table that has channels is without one.
  pub hello_chunks-nonempty :
      (ndb : List C) → 1 ≤ length ndb → All (λ c. 1 ≤ length c) (hello_chunks ndb)
  unfolding hello_chunks
  hello_chunks-nonempty ndb h = chunks_from-nonempty [] ndb h
