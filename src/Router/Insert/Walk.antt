-- ===== src/Router/Insert/Walk.antt =====
-- internal/router/tree.go: `insertStatic` reaches the node of its text, splitting on the way.
use mathlib.Core.List.{map-append}
use rice_http.Prelude.{
  ℕ, zero, suc, ◌≤◌, Bytes, true, Option, none, List, [], ◌∷◌, ◌++◌, ◌≡◌, ◌≢◌, inl, inr, refl, sym,
  ap, ◌∙◌, arith, Option-cases, length, take, drop, append_assoc,
}
use rice_http.Router.Tree.{Node, node, Nodes, Child, starts_like, prefix_of, InsertError}
use rice_http.Router.Table.{Symbol, lit, par, wild, lits, strip_lits, entry}
use rice_http.Router.Tree.Matching.{lits-strip}
use rice_http.Router.Tree.Static.{static_part}
use rice_http.Router.Insert.{Visit, common_prefix_len, split_shared, insert_static}
use rice_http.Router.Insert.Split.{
  take-append-rest, split_shared-prefix, through, split_shared-through,
}
use rice_http.Router.Insert.Full.{IsFull, AreFull, IsLively, split_shared-IsFull}
use rice_http.Router.Insert.Focus.{Focus, Keeps, through-prefix, visit_static-Focus}

starts_like-shared :
    (p : Bytes) (b : ℕ) (t : Bytes)
    → starts_like p (b ∷ t) ≡ true
    → (x : ℕ) → starts_like (take (common_prefix_len p (b ∷ t)) p) (x ∷ []) ≡ starts_like p (x ∷ [])
unfolding common_prefix_len
starts_like-shared [] b t h x = refl
starts_like-shared (a ∷ p) b t h x = rw h

pub length-rest :
    (p : Bytes) (b : ℕ) (t : Bytes)
    → starts_like p (b ∷ t) ≡ true
    → length (drop (common_prefix_len p (b ∷ t)) (b ∷ t)) ≤ length t
unfolding common_prefix_len
length-rest [] b t h = cc
length-rest (a ∷ p) b t h = rw h (length-drop (common_prefix_len p t) t)
  where
    length-drop : (n : ℕ) (s : Bytes) → length (drop n s) ≤ length s
    length-drop zero s = omega arith
    length-drop (suc n) [] = omega arith
    length-drop (suc n) (x ∷ s) = omega (arith, length-drop n s)

module _ {ℓ} {H : Type ℓ} where
  child-Focus :
      (c cur c' : Node H) (text head rest : Bytes) (k : Visit H) (e : Option InsertError)
      → text ≡ head ++ rest
      → prefix_of cur ≡ head
      → prefix_of c' ≡ head
      → ((s : List Symbol) → through cur s ≡ through c s)
      → (IsLively c → IsFull cur)
      → Focus (IsFull cur) (entry cur) (entry c') (lits rest) k e
      → Focus (IsLively c) (through c) (through c') (lits text) k e
  child-Focus c cur c' text head rest k e cut here here' same full f = record {
    at = f.at;
    before = λ q.
        f.before q
        ∙ sym (through-prefix cur head here (lits rest ++ q))
        ∙ same _
        ∙ ap (through c) (sym (joined q));
    error = f.error;
    filled = λ a. f.filled (full a);
    after =
        λ q. ap (through c') (joined q) ∙ through-prefix c' head here' (lits rest ++ q) ∙ f.after q;
    elsewhere = away;
  }
    where
      joined : (q : List Symbol) → lits text ++ q ≡ lits head ++ (lits rest ++ q)
      joined q = rw (cut, map-append, append_assoc)

      away :
          (q : List Symbol) → ((s : List Symbol) → q ≢ lits text ++ s) → through c' q ≡ through c q
      away q far = elim (Option-cases (strip_lits head q)) [
        | inl off ↦ outside off ∙ same q
        | inr (s, on) ↦ inside s (lits-strip head on) ∙ same q
      ]
        where
          outside : strip_lits head q ≡ none → through c' q ≡ through cur q
          outside off = rw (here, here', off)

          inside : (s : List Symbol) → q ≡ lits head ++ s → through c' q ≡ through cur q
          inside s e =
              ap (through c') e
              ∙ through-prefix c' head here' s
              ∙ f.elsewhere s (λ r e'. far r (e ∙ ap (λ l. lits head ++ l) e' ∙ sym (joined r)))
              ∙ sym (through-prefix cur head here s)
              ∙ ap (through cur) (sym e)

  node-Focus :
      (p : Bytes) (h : Option H) (ss ss' : Nodes H) (pr w : Child H) (nm : Bytes) (b : ℕ)
      (t : Bytes) (k : Visit H) (e : Option InsertError)
      → Focus (AreFull ss) (static_part ss) (static_part ss') (lits (b ∷ t)) k e
      → Focus
          (IsFull (node p h ss pr w nm))
          (entry (node p h ss pr w nm))
          (entry (node p h ss' pr w nm))
          (lits (b ∷ t))
          k
          e
  unfolding entry IsFull
  node-Focus p h ss ss' pr w nm b t k e f = record {
    at = f.at;
    before = f.before;
    error = f.error;
    filled = λ a. f.filled a.0;
    after = f.after;
    elsewhere = away;
  }
    where
      away :
          (q : List Symbol)
          → ((s : List Symbol) → q ≢ lits (b ∷ t) ++ s)
          → entry (node p h ss' pr w nm) q ≡ entry (node p h ss pr w nm) q
      away [] far = refl
      away (lit x ∷ q) far = f.elsewhere (lit x ∷ q) far
      away (par name ∷ q) far = refl
      away (wild name ∷ q) far = refl

  pub insert_static-Keeps :
      (fuel : ℕ) (text : Bytes) (k : Visit H) → Keeps k → Keeps (insert_static fuel text k)
  unfolding insert_static
  insert_static-Keeps zero [] k keep n = keep n
  insert_static-Keeps (suc fuel) [] k keep n = keep n
  insert_static-Keeps zero (b ∷ t) k keep n = keep n
  insert_static-Keeps (suc fuel) (b ∷ t) k keep (node p h ss pr w nm) = (refl, refl)

  pub insert_static-Focus :
      (fuel : ℕ) (text : Bytes) (k : Visit H)
      → Keeps k
      → (n : Node H) → length text ≤ fuel
      → Focus
          (IsFull n)
          (entry n)
          (entry (insert_static fuel text k n).0)
          (lits text)
          k
          (insert_static fuel text k n).1
  unfolding insert_static
  insert_static-Focus zero [] k keep n le = record {
    at = n;
    before = λ q. refl;
    error = refl;
    filled = λ a. a;
    after = λ q. refl;
    elsewhere = λ q far. absurd (far q refl);
  }
  insert_static-Focus (suc fuel) [] k keep n le = record {
    at = n;
    before = λ q. refl;
    error = refl;
    filled = λ a. a;
    after = λ q. refl;
    elsewhere = λ q far. absurd (far q refl);
  }
  insert_static-Focus zero (b ∷ t) k keep n le = absurd (omega arith)
  insert_static-Focus (suc fuel) (b ∷ t) k keep (node p h ss pr w nm) le =
      node-Focus p h ss _ pr w nm b t k _ (
        visit_static-Focus b t k keep ss _ λ c here.
          let cp = common_prefix_len (prefix_of c) (b ∷ t) in
          let cur = split_shared (b ∷ t) c in
          let kept = (insert_static-Keeps fuel (drop cp (b ∷ t)) k keep cur).0 in
          (
            child-Focus c cur _ (b ∷ t) (take cp (prefix_of c)) (drop cp (b ∷ t)) k _
                (take-append-rest (prefix_of c) (b ∷ t)) (split_shared-prefix (b ∷ t) c)
                (kept ∙ split_shared-prefix (b ∷ t) c) (split_shared-through (b ∷ t) c)
                (λ a. split_shared-IsFull (b ∷ t) c a.0 a.1)
                (insert_static-Focus fuel (drop cp (b ∷ t)) k keep cur
                  (omega (arith, length-rest (prefix_of c) b t here))),
            λ x.
                rw (kept ∙ split_shared-prefix (b ∷ t) c)
                  (starts_like-shared (prefix_of c) b t here x),
          ))
