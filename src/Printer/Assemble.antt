-- ===== src/Printer/Assemble.antt =====
-- The string of all messages, and what a load at an offset reads from it.
use bpfilter.Prelude.{
  ℕ, zero, suc, ◌+◌, ◌≡◌, ◌≤◌, refl, sym, ap, ◌∙◌, some_injective, List, [], ◌∷◌, ◌++◌, some,
  length, arith, get_elem?, length-append, append_assoc, append-nil, drop, take-length, drop-length,
  le→leb, drop-drop, length-drop, subst,
}
use bpfilter.Result.{ok, ◌>>=◌}
use bpfilter.Bytes.{load, At, load-At}
use bpfilter.Printer.{Msg, total_size, copy_msgs, store, assemble}
use bpfilter.Printer.Packed.{IsPacked, text_of, length-text_of, total_size-text_of}

-- Storing behind what is done already.
store_next :
    (done bytes junk : List ℕ)
    → length bytes ≤ length junk
    → store (done ++ junk) (length done) bytes ≡ ok ((done ++ bytes) ++ drop (length bytes) junk)
unfolding store
store_next done bytes junk h =
    let room : length done + length bytes ≤ length (done ++ junk) =
      omega (arith, length-append done junk) in
    rw
      (
        le→leb _ _ room,
        take-length done junk,
        drop-drop (length done) (length bytes) (done ++ junk),
        drop-length done junk,
        append_assoc,
      )
      refl

text_whole : (str : List ℕ) → load (str ++ 0 ∷ []) 0 (length str + 1) ≡ ok (str ++ 0 ∷ [])
text_whole str =
    let n : length (str ++ 0 ∷ []) ≡ length str + 1 = length-append str (0 ∷ []) in
    rw n at (
      load-At (str ++ 0 ∷ [])
        (record { pre = []; post = []; shape = sym (append-nil _); offset = refl }))

copy_msgs-text_of :
    (done junk : List ℕ) (msgs : List Msg)
    → IsPacked (length done) msgs
    → length junk ≡ length (text_of msgs)
    → copy_msgs (done ++ junk) msgs ≡ ok (done ++ text_of msgs)
unfolding copy_msgs IsPacked text_of
copy_msgs-text_of done [] [] p h = refl
copy_msgs-text_of done (c ∷ junk) [] p h = absurd (omega arith)
copy_msgs-text_of done junk (msg ∷ msgs) (at, len, rest) h =
    let text = msg.str ++ 0 ∷ [] in
    let n : length text ≡ length msg.str + 1 = length-append msg.str (0 ∷ []) in
    let room : length text ≤ length junk = omega (arith, length-text_of msg msgs) in
    let left : length (drop (length text) junk) ≡ length (text_of msgs) =
      omega (arith, length-drop (length text) junk, length-text_of msg msgs) in
    let more : IsPacked (length (done ++ text)) msgs =
      subst (λ o. IsPacked o msgs) (omega (arith, length-append done text)) rest in
    rw (at, len, text_whole msg.str, ◌>>=◌, store_next done text junk room)
      (copy_msgs-text_of (done ++ text) (drop (length text) junk) msgs more left
        ∙ ap ok (append_assoc done text (text_of msgs)))

-- The message lies in the texts where its offset says.
found :
    (before : List ℕ) (msgs : List Msg) (i : ℕ) (msg : Msg)
    → IsPacked (length before) msgs
    → get_elem? msgs i ≡ some msg
    → At (before ++ text_of msgs) msg.offset (msg.str ++ 0 ∷ []) × (msg.len ≡ length msg.str + 1)
unfolding IsPacked text_of
found before [] i msg p h = cc
found before (m ∷ msgs) zero msg (at, len, rest) h =
    let same : m ≡ msg = some_injective h in
    (
      record {
        pre = before;
        post = text_of msgs;
        shape = rw (← same) refl;
        offset = rw (← same) (sym at);
      },
      rw (← same) len,
    )
found before (m ∷ msgs) (suc i) msg (at, len, rest) h =
    let text = m.str ++ 0 ∷ [] in
    let more : IsPacked (length (before ++ text)) msgs =
      subst (λ o. IsPacked o msgs)
        (omega (arith, length-append before text, length-append m.str (0 ∷ []))) rest in
    rw append_assoc at (found (before ++ text) msgs i msg more h)

assemble-text_of :
    (malloc : ℕ → List ℕ) (msgs : List Msg) (i : ℕ) (msg : Msg)
    → ((n : ℕ) → length (malloc n) ≡ n)
    → IsPacked 0 msgs
    → get_elem? msgs i ≡ some msg
    → assemble malloc msgs ≡ ok (text_of msgs)
unfolding assemble
assemble-text_of malloc [] i msg sized p h = cc
assemble-text_of malloc (m ∷ msgs) i msg sized p h =
    let size = total_size-text_of (m ∷ msgs) p in
    let copied =
      copy_msgs-text_of [] (malloc (total_size (m ∷ msgs))) (m ∷ msgs) p
        (omega (arith, sized (total_size (m ∷ msgs)), size)) in
    ground (arith, copied, size, length-text_of m msgs)

-- Whatever block the allocation gives, the messages of a packed printer are assembled to a string in
-- which each message of the printer is found: the bytes at the message's offset, as many as its
-- length says, are its text and a final 0.
pub assemble-load :
    (malloc : ℕ → List ℕ) (msgs : List Msg) (i : ℕ) (msg : Msg)
    → ((n : ℕ) → length (malloc n) ≡ n)
    → IsPacked 0 msgs
    → get_elem? msgs i ≡ some msg
    → (assemble malloc msgs >>= λ block. load block msg.offset msg.len) ≡ ok (msg.str ++ 0 ∷ [])
assemble-load malloc msgs i msg sized p h =
    let (at, len) = found [] msgs i msg p h in
    let n : length (msg.str ++ 0 ∷ []) ≡ msg.len =
      omega (arith, length-append msg.str (0 ∷ []), len) in
    rw (assemble-text_of malloc msgs i msg sized p h, ◌>>=◌)
      (rw n at (load-At (msg.str ++ 0 ∷ []) at))
