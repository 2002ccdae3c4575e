-- ===== src/Ssh/Sessions.antt =====
-- What the registry of sessions promises, whatever the order of its operations
-- (services/ssh-proxy/internal/muxregistry/registry.go).
use hybrid_cloud_with_claude.Prelude.{
  ℕ, ◌≡◌, ◌≢◌, refl, sym, ap, subst, ◌∙◌, Bool, true, false, String, str_eq, str_eq_iff, Option,
  none, some, Bool-cases, inl, inr, arith,
}
use hybrid_cloud_with_claude.Ssh.Mux.{
  Entry, Life, shut, is_shut, open_entry, unseen, held, retiring, Registry, new_registry, set_life,
  set_node, retire_entry, is_current, remove_if, register_as, register, shut_down, deregister,
  close, handle_death, open_stream, opened, Step, registers, shuts, deregisters, closes, breaks,
  dies, Reach, starts, then_step,
}

-- A session in the map was registered for its node and is not on its way out, a held session is in the
-- map, and a closed registry's map is empty.
pub record IsTidy (r : Registry) : Type 0 where
  pub placed :
      (n : String) (e : Entry)
      → r.sessions n ≡ some e
      → (r.node_of e.sess ≡ n) × (r.life e.sess ≢ unseen) × (r.life e.sess ≢ retiring)
  pub mapped : (s : ℕ) → r.life s ≡ held → is_current (r.sessions (r.node_of s)) s ≡ true
  pub emptied : (n : String) → r.closed ≡ true → r.sessions n ≡ none

new-IsTidy : IsTidy new_registry
new-IsTidy = record {
  placed = λ n e h. absurd (ground arith);
  mapped = λ s h. absurd (ground arith);
  emptied = λ n h. refl;
}

shut_down-IsTidy : (s : ℕ) (r : Registry) → r.life s ≢ unseen → IsTidy r → IsTidy (shut_down s r)
unfolding shut_down
shut_down-IsTidy s r seen tidy = record {
  placed = λ n e h.
      ((tidy.placed n e h).0, ground (arith, tidy.placed n e), ground (arith, tidy.placed n e));
  mapped = λ t h. ground (arith, tidy.mapped t);
  emptied = λ n h. tidy.emptied n h;
}

retire_entry-other :
    (o : Option Entry) (f : ℕ → Life) (t : ℕ)
    → ((e : Entry) → o ≡ some e → e.sess ≢ t)
    → retire_entry o f t ≡ f t
retire_entry-other none f t other = refl
retire_entry-other (some e) f t other = ground (arith, other e refl)

-- Entries of two nodes have two sessions.
entries_differ :
    (r : Registry) (n node : String) (e : Entry)
    → IsTidy r
    → r.sessions n ≡ some e
    → str_eq n node ≡ false
    → (e' : Entry) → r.sessions node ≡ some e'
    → e'.sess ≢ e.sess
entries_differ r n node e tidy h ne e' h' k =
    let (named, seen, kept) = tidy.placed n e h in
    let (named', seen', kept') = tidy.placed node e' h' in
    ground (arith, str_eq_iff n node, ap r.node_of k)

deregister-IsTidy : (node : String) (r : Registry) → IsTidy r → IsTidy (deregister node r)
unfolding deregister
deregister-IsTidy node r tidy = record {
  placed = λ n e h.
      let old : r.sessions n ≡ some e = ground (arith, h) in
      let (named, seen, kept) = tidy.placed n e old in
      let ne : str_eq n node ≡ false = ground (arith, h) in
      let same =
        retire_entry-other (r.sessions node) r.life e.sess
          (entries_differ r n node e tidy old ne) in
      (named, (λ k. seen (sym same ∙ k)), (λ k. kept (sym same ∙ k)));
  mapped = λ t h. ground (arith, tidy.mapped t, str_eq_iff (r.node_of t) node);
  emptied = λ n h. ground (arith, tidy.emptied n);
}

unseen_elsewhere :
    (r : Registry) (s : ℕ) (n : String) (e : Entry)
    → IsTidy r
    → r.life s ≡ unseen
    → r.sessions n ≡ some e
    → e.sess ≢ s
unseen_elsewhere r s n e tidy new h k = (tidy.placed n e h).1 (ap r.life k ∙ new)

-- A session that no entry has, with any life but a held one, and any node.
put_aside-IsTidy :
    (s : ℕ) (node : String) (l : Life) (r : Registry)
    → r.life s ≡ unseen
    → l ≢ held
    → IsTidy r
    → IsTidy (record r { life = set_life s l r.life; node_of = set_node s node r.node_of })
put_aside-IsTidy s node l r new quiet tidy = record {
  placed = λ n e h.
      let away = unseen_elsewhere r s n e tidy new h in
      let (named, seen, kept) = tidy.placed n e h in
      (ground (arith, named), (λ k. seen (ground (arith, k))), (λ k. kept (ground (arith, k))));
  mapped = λ t h. ground (arith, tidy.mapped t);
  emptied = tidy.emptied;
}

register_as-IsTidy :
    (b : Bool) (node : String) (s : ℕ) (version : String) (r : Registry)
    → r.closed ≡ b
    → r.life s ≡ unseen
    → IsTidy r
    → IsTidy (register_as b node s version r)
register_as-IsTidy true node s version r c new tidy =
    put_aside-IsTidy s node retiring r new (λ k. ground arith) tidy
register_as-IsTidy false node s version r c new tidy = record {
  placed = λ n e h. elim (Bool-cases (str_eq n node)) [
    | inl y ↦ (ground (arith, str_eq_iff n node), (λ k. ground arith), (λ k. ground arith))
    | inr ne ↦
        let old : r.sessions n ≡ some e = ground (arith, h) in
        let away = unseen_elsewhere r s n e tidy new old in
        let (named, seen, kept) = tidy.placed n e old in
        let same =
          retire_entry-other (r.sessions node) r.life e.sess
            (entries_differ r n node e tidy old ne) in
        (
          ground (arith, named),
          (λ k. seen (sym same ∙ ground (arith, k))),
          (λ k. kept (sym same ∙ ground (arith, k))),
        )
  ];
  mapped =
      λ t h. ground (arith, tidy.mapped t, str_eq_iff (r.node_of t) node, str_eq_iff node node);
  emptied = λ n h. absurd (ground arith);
}

close-IsTidy : (r : Registry) → IsTidy r → IsTidy (close r)
unfolding close
close-IsTidy r tidy = record {
  placed = λ n e h. absurd (ground arith);
  mapped = λ t h. absurd (ground (arith, tidy.mapped t));
  emptied = λ n h. refl;
}

remove_if-some :
    (b : Bool) (node : String) (f : String → Option Entry) (n : String) (e : Entry)
    → remove_if b node f n ≡ some e
    → f n ≡ some e
remove_if-some true node f n e h = ground (arith, h)
remove_if-some false node f n e h = h

-- The entry of the node that is removed is not there.
kept_out :
    (b : Bool) (node : String) (f : String → Option Entry) (n : String) (e : Entry)
    → remove_if b node f n ≡ some e
    → b ≡ true
    → node ≢ n
kept_out true node f n e h t k = ground (arith, str_eq_iff n node)
kept_out false node f n e h t k = absurd (ground arith)

remove_if-none :
    (b : Bool) (node : String) (f : String → Option Entry) (n : String)
    → f n ≡ none
    → remove_if b node f n ≡ none
remove_if-none true node f n e = ground arith
remove_if-none false node f n e = e

current_same : (o : Option Entry) (s t : ℕ) → is_current o s ≡ true → is_current o t ≡ true → t ≡ s
current_same none s t h h' = absurd (ground arith)
current_same (some e) s t h h' = ground arith

remove_if-current :
    (b : Bool) (node : String) (f : String → Option Entry) (n : String) (t s : ℕ)
    → is_current (f node) s ≡ b
    → t ≢ s
    → is_current (f n) t ≡ true
    → is_current (remove_if b node f n) t ≡ true
remove_if-current false node f n t s e ne h = h
remove_if-current true node f n t s e ne h = elim (Bool-cases (str_eq n node)) [
  | inl y ↦
      let same = (str_eq_iff n node).0 y in
      absurd (ne (current_same (f node) s t e (subst (λ m. is_current (f m) t ≡ true) same h)))
  | inr no_match ↦ rw no_match h
]

shutting-IsTidy :
    (node : String) (s : ℕ) (r : Registry)
    → r.life s ≢ unseen
    → node ≡ r.node_of s
    → IsTidy r
    → IsTidy (handle_death node s r)
unfolding handle_death
shutting-IsTidy node s r seen e tidy = record {
  placed = λ n x h.
      let b = is_current (r.sessions node) s in
      let old = remove_if-some b node r.sessions n x h in
      let (named, known, kept) = tidy.placed n x old in
      let away : x.sess ≢ s = λ k.
        kept_out b node r.sessions n x h (ground (arith, old, ap r.node_of k, e, named))
          (e ∙ ap r.node_of (sym k) ∙ named) in
      (named, (λ k. known (ground (arith, k))), (λ k. kept (ground (arith, k))));
  mapped = λ t h.
      remove_if-current (is_current (r.sessions node) s) node r.sessions (r.node_of t) t s refl
        (λ k. ground arith) (tidy.mapped t (ground (arith, h)));
  emptied =
      λ n h. remove_if-none (is_current (r.sessions node) s) node r.sessions n (tidy.emptied n h);
}

step-IsTidy : (r r' : Registry) → Step r r' → IsTidy r → IsTidy r'
unfolding register
step-IsTidy r _ (registers node s version new) tidy =
    register_as-IsTidy r.closed node s version r refl new tidy
step-IsTidy r _ (shuts s e) tidy = shut_down-IsTidy s r (λ k. ground arith) tidy
step-IsTidy r _ (deregisters node) tidy = deregister-IsTidy node r tidy
step-IsTidy r _ closes tidy = close-IsTidy r tidy
step-IsTidy r _ (breaks s e) tidy = shut_down-IsTidy s r (λ k. ground arith) tidy
step-IsTidy r _ (dies s seen) tidy = shutting-IsTidy (r.node_of s) s r seen refl tidy

Reach-IsTidy : (r : Registry) → Reach r → IsTidy r
Reach-IsTidy _ starts = new-IsTidy
Reach-IsTidy _ (then_step {r = r} {r' = r'} before st) = step-IsTidy r r' st (Reach-IsTidy r before)

held_open : (l : Life) → l ≢ unseen → l ≢ retiring → is_shut l ≡ false → l ≡ held
held_open unseen seen kept up = absurd (seen refl)
held_open held seen kept up = refl
held_open retiring seen kept up = absurd (kept refl)
held_open shut seen kept up = absurd (ground arith)

opened-entry :
    (o : Option Entry) (f : ℕ → Life) (s : ℕ)
    → open_entry o f ≡ opened s
    → (e : Entry) × (o ≡ some e) × (e.sess ≡ s) × (is_shut (f s) ≡ false)
opened-entry none f s h = absurd (ground arith)
opened-entry (some e) f s h = elim (Bool-cases (is_shut (f e.sess))) [
  | inl t ↦ absurd (ground arith)
  | inr up ↦
      let same : e.sess ≡ s = ground arith in
      (e, refl, same, subst (λ t. is_shut (f t) ≡ false) same up)
]

-- In every order of registrations, deaths, removals and the shutdown, a stream opens only on a session
-- that is open, that the registry holds and that was registered for the node, in a registry that is not
-- closed; and it holds no other open session of the node: each of those is closed, or has been taken out
-- of the map to be closed.
pub open_stream-only :
    (r : Registry) (node : String) (s : ℕ)
    → Reach r
    → open_stream node r ≡ opened s
    → (r.life s ≡ held)
      × (r.node_of s ≡ node)
      × (r.closed ≡ false)
      × ((t : ℕ) → r.node_of t ≡ node → r.life t ≡ held → t ≡ s)
unfolding open_stream
open_stream-only r node s reached h =
    let tidy = Reach-IsTidy r reached in
    let (x, e, same, up) = opened-entry (r.sessions node) r.life s h in
    let (of_node, seen, kept) = tidy.placed node x e in
    (
      held_open (r.life s) (λ k. seen (ap r.life same ∙ k)) (λ k. kept (ap r.life same ∙ k)) up,
      ap r.node_of (sym same) ∙ of_node,
      ground (arith, tidy.emptied node),
      λ t named lives.
          let here : is_current (r.sessions node) t ≡ true =
            subst (λ n. is_current (r.sessions n) t ≡ true) named (tidy.mapped t lives) in
          current_same (r.sessions node) s t (rw e (ground arith)) here,
    )
