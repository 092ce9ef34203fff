-- ===== src/Protocol/NodeDatabase/Merging.antt =====
-- ndb.py: a table of channels that arrives in several HELLO messages.
use espstation.Common.{
  length, arith, ◌≤◌, ℕ, ◌≡◌, refl, ap, sym, ◌∙◌, List, [], ◌∷◌, ◌++◌, Option, some, Bytes, ◌==◌,
  if◌then◌else◌,
}
use espstation.Common.Dict.{Key, number_key, get, get-put}
use espstation.Protocol.NodeDatabase.{NdbChannel, Hello, NodeDatabase, declare_all, merge_hello}
use espstation.Sim.Hello.{hello_chunks, hello_chunks-whole, joined}

-- The HELLO messages of a node, one for each chunk of its channels.
abbrev pub hellos : {K : Type 0} → ℕ → Bytes → List (List (NdbChannel K)) → List (Hello K)
hellos node_id label [] = []
hellos node_id label (chunk ∷ chunks) =
    record { node_id = node_id; label = label; ndb = chunk } ∷ hellos node_id label chunks

-- The last declaration of an id, if there is one.
abbrev pub last_with_id :
    {K : Type 0} → ℕ → List (NdbChannel K) → Option (NdbChannel K) → Option (NdbChannel K)
last_with_id id [] old = old
last_with_id id (ch ∷ ndb) old = last_with_id id ndb (if ch.id == id then some ch else old)

abbrev pub last_with_key :
    {K : Type 0} ⦃key : Key K⦄
    → K
    → List (NdbChannel K)
    → Option (NdbChannel K)
    → Option (NdbChannel K)
last_with_key k [] old = old
last_with_key ⦃key = key⦄ k (ch ∷ ndb) old =
    last_with_key k ndb (if key.same ch.key k then some ch else old)

module _ {K F : Type 0} ⦃key : Key K⦄ where
  unfoldable pub merge_all : NodeDatabase K F → List (Hello K) → NodeDatabase K F
  merge_all db [] = db
  merge_all db (hello ∷ later) = merge_all (merge_hello db hello) later

  declare_all-append :
      (xs ys : List (NdbChannel K)) (db : NodeDatabase K F)
      → declare_all (xs ++ ys) db ≡ declare_all ys (declare_all xs db)
  unfolding declare_all
  declare_all-append [] ys db = refl
  declare_all-append (ch ∷ xs) ys db = declare_all-append xs ys _

  kept_label :
      (xs : List (NdbChannel K)) (db : NodeDatabase K F) → (declare_all xs db).label ≡ db.label
  unfolding declare_all
  kept_label [] db = refl
  kept_label (ch ∷ xs) db = kept_label xs _

  merge_all-joined :
      (chunks : List (List (NdbChannel K))) (db : NodeDatabase K F) (node_id : ℕ)
      → merge_all db (hellos node_id db.label chunks) ≡ declare_all (joined chunks) db
  unfolding merge_all merge_hello
  merge_all-joined [] db node_id = unfold declare_all in refl
  merge_all-joined (chunk ∷ chunks) db node_id =
      ap (λ (label : Bytes). merge_all (declare_all chunk db) (hellos node_id label chunks))
        (sym (kept_label chunk db))
      ∙ merge_all-joined chunks (declare_all chunk db) node_id
      ∙ sym (declare_all-append chunk (joined chunks) db)

  -- The first of several messages brings the label; the others bring the same.
  merge_all-labelled :
      (chunks : List (List (NdbChannel K))) (db : NodeDatabase K F) (node_id : ℕ) (label : Bytes)
      → 1 ≤ length (joined chunks)
      → merge_all db (hellos node_id label chunks)
        ≡ declare_all (joined chunks) (record db { label = label })
  unfolding merge_all merge_hello
  merge_all-labelled [] db node_id label some_ = absurd (omega arith)
  merge_all-labelled (chunk ∷ chunks) db node_id label some_ =
      let first : NodeDatabase K F = declare_all chunk (record db { label = label }) in
      ap (λ (l : Bytes). merge_all first (hellos node_id l chunks))
        (sym (kept_label chunk (record db { label = label })))
      ∙ merge_all-joined chunks first node_id
      ∙ sym (declare_all-append chunk (joined chunks) (record db { label = label }))

  declared_id :
      (ndb : List (NdbChannel K)) (db : NodeDatabase K F) (id : ℕ)
      → get id (declare_all ndb db).channels_by_id ≡ last_with_id id ndb (get id db.channels_by_id)
  unfolding declare_all
  declared_id [] db id = refl
  declared_id (ch ∷ ndb) db id =
      declared_id ndb _ id ∙ ap (last_with_id id ndb) (get-put id ch.id ch db.channels_by_id)

  declared_key :
      (ndb : List (NdbChannel K)) (db : NodeDatabase K F) (k : K)
      → get k (declare_all ndb db).channels_by_key ≡ last_with_key k ndb (get k db.channels_by_key)
  unfolding declare_all
  declared_key [] db k = refl
  declared_key (ch ∷ ndb) db k =
      declared_key ndb _ k ∙ ap (last_with_key k ndb) (get-put k ch.key ch db.channels_by_key)

  -- What a HELLO does to the table of its node: an id or a key means the last channel that the message
  -- declares under it, and what it meant before if the message declares none.
  merge_hello-lookups :
      (db : NodeDatabase K F) (hello : Hello K) (id : ℕ) (k : K)
      → (get id (merge_hello db hello).channels_by_id
          ≡ last_with_id id hello.ndb (get id db.channels_by_id))
        × (get k (merge_hello db hello).channels_by_key
            ≡ last_with_key k hello.ndb (get k db.channels_by_key))
  unfolding merge_hello
  merge_hello-lookups db hello id k = (
    declared_id hello.ndb (record db { label = hello.label }) id,
    declared_key hello.ndb (record db { label = hello.label }) k,
  )

  -- A node with a table of channels announces it in the HELLO messages that its chunking makes, whatever
  -- size their payloads have, all with the node's label. When the station has merged them in order, into
  -- whatever it knew of the node before, the database has this label, and an id or a key means the last
  -- channel of the table that has it, or what it meant before if the table has none: exactly as if the
  -- whole table had come in one message.
  pub merge_all-chunks :
      (payload : List (NdbChannel K) → Bytes) (ndb : List (NdbChannel K)) (db : NodeDatabase K F)
      (node_id : ℕ) (label : Bytes) (id : ℕ) (k : K)
      → 1 ≤ length ndb
      → let merged = merge_all db (hellos node_id label (hello_chunks payload ndb)) in
        (merged.label ≡ label)
        × (get id merged.channels_by_id ≡ last_with_id id ndb (get id db.channels_by_id))
        × (get k merged.channels_by_key ≡ last_with_key k ndb (get k db.channels_by_key))
        × (merged ≡ merge_hello db (record { node_id = node_id; label = label; ndb = ndb }))
  unfolding merge_hello
  merge_all-chunks payload ndb db node_id label id k some_ =
      let whole : joined (hello_chunks payload ndb) ≡ ndb = (hello_chunks-whole payload ndb).0 in
      let hello : Hello K = record { node_id = node_id; label = label; ndb = ndb } in
      let all : merge_all db (hellos node_id label (hello_chunks payload ndb))
          ≡ merge_hello db hello =
        merge_all-labelled (hello_chunks payload ndb) db node_id label
          (omega (arith, ap length whole))
        ∙ ap (λ (l : List (NdbChannel K)). declare_all l (record db { label = label })) whole in
      let (ids, keys) = merge_hello-lookups db hello id k in
      (
        ap (λ (d : NodeDatabase K F). d.label) all ∙ kept_label ndb (record db { label = label }),
        ap (λ (d : NodeDatabase K F). get id d.channels_by_id) all ∙ ids,
        ap (λ (d : NodeDatabase K F). get k d.channels_by_key) all ∙ keys,
        all,
      )
