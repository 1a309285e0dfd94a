-- ===== src/Queue/Publish.antt =====
-- A file written under a temporary name and then linked to its final one.
use Prim.Native.String.{◌++◌ as append}
use chitra.Prelude.{
  ℕ, ◌+◌, ◌<◌, ◌≤◌, String, ◌≡◌, ◌≢◌, refl, sym, ◌∙◌, none, some, ◌∷◌, Result, ok, err, Bool-cases,
  Option-cases, inl, inr, arith,
}
use chitra.Queue.{
  QueueSubdir, QueuePath, file, QueueError, os_error, file_exists, file_not_found, Files, Os, Io,
  raise, catch, ◌>>◌, suppress, lookup, add, remove, write, is_directory, dotted, create, create_at,
  link, link_at, unlink, unlink_at, with_temporary,
}
use chitra.Queue.Entries.{lookup-add, lookup-add_other, lookup-remove_other}

-- "{ending}.{random}.tmp" beside the final name
abbrev pub temporary : QueueSubdir → String → String → String → QueuePath
temporary d i ending random = dotted d i (append ending (append "." (append random ".tmp")))

-- NamedTemporaryFile, os.link, and the removal of the temporary name
unfoldable pub publish : Os → QueuePath → QueuePath → String → Io (Unit {0})
publish os p q t = with_temporary os p t (link os p q)

abbrev made : QueuePath → String → Files → Files
made p t s = record s {
  entries = (p, file s.next) ∷ s.entries;
  text = write s.next t s.text;
  next = s.next + 1;
}

-- The outcomes of publishing `t` at `q` by way of `p`.
data IsPublish (p q : QueuePath) (t : String) (s : Files)
    : Result QueueError (Unit {0}) × Files → Type 0 where
  not_created : {e : QueueError} → IsPublish p q t s (err e, s)
  not_linked : {e : QueueError} → IsPublish p q t s (err e, remove p (made p t s))
  left_over : {e : QueueError} → IsPublish p q t s (err e, made p t s)
  linked :
      lookup q s ≡ none → IsPublish p q t s (ok tt, remove p (add q (file s.next) (made p t s)))
  both_left : lookup q s ≡ none → IsPublish p q t s (ok tt, add q (file s.next) (made p t s))

-- What it does to every path and every text.
pub record IsPublished (p q : QueuePath) (t : String) (s : Files)
    (r : Result QueueError (Unit {0}) × Files) : Type 0 where
  pub next : s.next ≤ r.1.next
  pub text : (j : ℕ) → j < s.next → r.1.text j ≡ s.text j
  pub others : (x : QueuePath) → x ≢ p → x ≢ q → lookup x r.1 ≡ lookup x s
  pub told :
      r.0 ≡ ok tt
      → (lookup q s ≡ none)
        × (lookup q r.1 ≡ some (file s.next))
        × (r.1.text s.next ≡ t)
        × (s.next < r.1.next)
  pub untold : r.0 ≢ ok tt → lookup q r.1 ≡ lookup q s

not_raised : {e : QueueError} → ◌≡◌ {A = Result QueueError (Unit {0})} (err e) (ok tt) → ⊥
not_raised h = cc

write_same : (i : ℕ) (t : String) (f : ℕ → String) → write i t f i ≡ t
write_same i t f = ground arith

write_other : (i : ℕ) (t : String) (f : ℕ → String) (j : ℕ) → j < i → write i t f j ≡ f j
write_other i t f j h = ground (arith, h)

module _ (os : Os) (p q : QueuePath) (t : String) (s : Files) (other : p ≢ q) where
  failed_link :
      (e : QueueError) → IsPublish p q t s ((suppress (unlink os p) >> raise e) (made p t s))
  unfolding unlink unlink_at
  failed_link e = elim (Bool-cases (os.unlink_fails p)) [
    | inl a ↦ rw a left_over
    | inr a ↦ rw (a, lookup-add p (file s.next) s, unlink_at) not_linked
  ]

  made_link :
      lookup q s ≡ none
      → IsPublish p q t s (suppress (unlink os p) (add q (file s.next) (made p t s)))
  unfolding unlink unlink_at
  made_link h =
      let found : lookup p (add q (file s.next) (made p t s)) ≡ some (file s.next) =
        lookup-add_other p q (file s.next) (made p t s) other ∙ lookup-add p (file s.next) s in
      elim (Bool-cases (os.unlink_fails p)) [
        | inl a ↦ rw a (both_left h)
        | inr a ↦ rw (a, found, unlink_at) (linked h)
      ]

  body : IsPublish p q t s (
      catch
        (link os p q)
        (λ _. suppress (unlink os p))
        (λ e. suppress (unlink os p) >> raise e)
        (made p t s))
  unfolding link link_at
  body =
      let at_final : lookup q (made p t s) ≡ lookup q s =
        lookup-add_other q p (file s.next) s (λ e. other (sym e)) in
      elim (Bool-cases (os.link_fails p q)) [
        | inl a ↦ rw a (failed_link os_error)
        | inr a ↦ elim (Option-cases (lookup q s)) [
          | inr (x, h) ↦
              rw (a, lookup-add p (file s.next) s, at_final, h, link_at) (failed_link file_exists)
          | inl h ↦ elim (Bool-cases (is_directory (s.kind q.dir))) [
            | inr c ↦
                rw (a, lookup-add p (file s.next) s, at_final, h, link_at, c)
                  (failed_link file_not_found)
            | inl c ↦ rw (a, lookup-add p (file s.next) s, at_final, h, link_at, c) (made_link h)
          ]
        ]
      ]

  publish-IsPublish : IsPublish p q t s (publish os p q t s)
  unfolding publish with_temporary create create_at
  publish-IsPublish = elim (Bool-cases (os.create_fails p)) [
    | inl a ↦ rw a not_created
    | inr a ↦ elim (Option-cases (lookup p s)) [
      | inr (x, b) ↦ rw (a, b, create_at) not_created
      | inl b ↦ elim (Bool-cases (is_directory (s.kind p.dir))) [
        | inr c ↦ rw (a, b, create_at, c) not_created
        | inl c ↦ rw (a, b, create_at, c) body
      ]
    ]
  ]

  published :
      {r : Result QueueError (Unit {0}) × Files} → IsPublish p q t s r → IsPublished p q t s r
  published not_created = record {
    next = omega arith;
    text = λ j h. refl;
    others = λ x a b. refl;
    told = λ e. absurd (not_raised e);
    untold = λ _. refl;
  }
  published not_linked = record {
    next = omega arith;
    text = write_other s.next t s.text;
    others =
        λ x a b. lookup-remove_other x p (made p t s) a ∙ lookup-add_other x p (file s.next) s a;
    told = λ e. absurd (not_raised e);
    untold = λ _.
        lookup-remove_other q p (made p t s) (λ e. other (sym e))
        ∙ lookup-add_other q p (file s.next) s (λ e. other (sym e));
  }
  published left_over = record {
    next = omega arith;
    text = write_other s.next t s.text;
    others = λ x a b. lookup-add_other x p (file s.next) s a;
    told = λ e. absurd (not_raised e);
    untold = λ _. lookup-add_other q p (file s.next) s (λ e. other (sym e));
  }
  published (linked h) = record {
    next = omega arith;
    text = write_other s.next t s.text;
    others = λ x a b.
        lookup-remove_other x p (add q (file s.next) (made p t s)) a
        ∙ lookup-add_other x q (file s.next) (made p t s) b
        ∙ lookup-add_other x p (file s.next) s a;
    told = λ _. (
      h,
      lookup-remove_other q p (add q (file s.next) (made p t s)) (λ e. other (sym e))
          ∙ lookup-add q (file s.next) (made p t s),
      write_same s.next t s.text,
      omega arith,
    );
    untold = λ n. absurd (n refl);
  }
  published (both_left h) = record {
    next = omega arith;
    text = write_other s.next t s.text;
    others = λ x a b.
        lookup-add_other x q (file s.next) (made p t s) b ∙ lookup-add_other x p (file s.next) s a;
    told =
        λ _. (h, lookup-add q (file s.next) (made p t s), write_same s.next t s.text, omega arith);
    untold = λ n. absurd (n refl);
  }

  -- A publication changes no other path and no text that was there, and it reports success only when
  -- the final name was free and now has a new file with the whole text; else that name is as it was.
  pub publish-IsPublished : IsPublished p q t s (publish os p q t s)
  publish-IsPublished = published publish-IsPublish
