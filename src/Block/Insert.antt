-- ===== src/Block/Insert.antt =====
-- add_request of kernel/blk_drv/request_scan_algo.c on the list of a device that has requests.
use neu_os.Prelude.{
  ℕ, zero, suc, ◌<◌, ◌≡◌, refl, ◌≢◌, inl, inr, ◌∙◌, sym, ap, Bool, true, false, ◌&&◌, ◌||◌, not,
  none, some, List, [], ◌∷◌, ◌++◌, arith, length, All, update_self, update_ne, Bool-cases,
}
use neu_os.Block.{Requests, in_order}
use neu_os.Block.Make.{set_next, find_place, link_after}

-- The requests behind `i`, by the `next` fields.
pub data Chain (tbl : Requests) : ℕ → List ℕ → Type 0 where
  end : {i : ℕ} → (tbl i).next ≡ none → Chain tbl i []
  link : {i j : ℕ} {xs : List ℕ} → (tbl i).next ≡ some j → Chain tbl j xs → Chain tbl i (j ∷ xs)

abbrev pub Avoids : ℕ → List ℕ → Type 0
Avoids k = All (λ j. j ≢ k)

-- No request stands twice in the list.
abbrev pub Distinct : List ℕ → Type 0
Distinct [] = Unit
Distinct (x ∷ xs) = Avoids x xs × Distinct xs

module _ (tmp req : ℕ) (tbl : Requests) where
  link_after-tmp : (link_after tmp req tbl tmp).next ≡ some req
  unfolding link_after set_next
  link_after-tmp = ap (λ r. r.next) (update_self (set_next req (tbl tmp).next tbl) tmp _)

  link_after-req : req ≢ tmp → (link_after tmp req tbl req).next ≡ (tbl tmp).next
  unfolding link_after set_next
  link_after-req ne =
      ap (λ r. r.next)
        (update_ne (set_next req (tbl tmp).next tbl) tmp req _ ne ∙ update_self tbl req _)

  link_after-else : (j : ℕ) → j ≢ tmp → j ≢ req → link_after tmp req tbl j ≡ tbl j
  unfolding link_after set_next
  link_after-else j p q =
      update_ne (set_next req (tbl tmp).next tbl) tmp j _ p ∙ update_ne tbl req j _ q

  Chain-kept :
      {i : ℕ} {xs : List ℕ}
      → Avoids tmp (i ∷ xs)
      → Avoids req (i ∷ xs)
      → Chain tbl i xs
      → Chain (link_after tmp req tbl) i xs
  Chain-kept {i} p q (end e) = end (ap (λ r. r.next) (link_after-else i p.0 q.0) ∙ e)
  Chain-kept {i} p q (link e c) =
      link (ap (λ r. r.next) (link_after-else i p.0 q.0) ∙ e) (Chain-kept p.1 q.1 c)

  Chain-linked :
      {xs : List ℕ}
      → Distinct (tmp ∷ xs)
      → Avoids req (tmp ∷ xs)
      → Chain tbl tmp xs
      → Chain (link_after tmp req tbl) tmp (req ∷ xs)
  Chain-linked d away (end e) = link link_after-tmp (end (link_after-req (λ p. away.0 (sym p)) ∙ e))
  Chain-linked d away (link e c) =
      link link_after-tmp
        (link (link_after-req (λ p. away.0 (sym p)) ∙ e) (Chain-kept d.0 away.1 c))

-- Where find_place stops, and what linking the request there makes of the list.
pub record Inserted (tbl : Requests) (rounds req i : ℕ) (xs : List ℕ) : Type 0 where
  pub place : ℕ
  pub found : find_place rounds tbl i req ≡ some place
  pub member : (k : ℕ) → Avoids k (i ∷ xs) → place ≢ k
  pub before : List ℕ
  pub behind : List ℕ
  pub split : xs ≡ before ++ behind
  pub chain : Chain (link_after place req tbl) i (before ++ req ∷ behind)

-- The test of the loop in add_request.
abbrev fits : Requests → ℕ → ℕ → ℕ → Bool
fits tbl i j req =
    (in_order (tbl i) (tbl req) || not (in_order (tbl i) (tbl j))) && in_order (tbl req) (tbl j)

module _ (rounds : ℕ) (tbl : Requests) (i req : ℕ) where
  find_place-end : (tbl i).next ≡ none → find_place (suc rounds) tbl i req ≡ some i
  unfolding find_place
  find_place-end e = rw (find_place, e) refl

  module _ {j : ℕ} (e : (tbl i).next ≡ some j) where
    find_place-stop : fits tbl i j req ≡ true → find_place (suc rounds) tbl i req ≡ some i
    unfolding find_place
    find_place-stop stop = rw (find_place, e) (rw stop refl)

    find_place-go :
        fits tbl i j req ≡ false → find_place (suc rounds) tbl i req ≡ find_place rounds tbl j req
    unfolding find_place
    find_place-go go = rw (find_place, e) (rw go refl)

-- The loop of add_request ends when it has more rounds than the list behind the first request is long,
-- and linking the new request where it ends puts it into that list: the first request stays first, and
-- the others keep their order. The new request and those of the list are different entries.
pub find_place-Inserted :
    (rounds : ℕ) (tbl : Requests) (req : ℕ) {i : ℕ} {xs : List ℕ}
    → Distinct (i ∷ xs)
    → Avoids req (i ∷ xs)
    → Chain tbl i xs
    → length xs < rounds
    → Inserted tbl rounds req i xs
find_place-Inserted zero tbl req d away c h = absurd (omega arith)
find_place-Inserted (suc rounds) tbl req {i} d away (end e) h = record {
  place = i;
  found = find_place-end rounds tbl i req e;
  member = λ k p. p.0;
  before = [];
  behind = [];
  split = refl;
  chain = Chain-linked i req tbl d away (end e);
}
find_place-Inserted (suc rounds) tbl req {i} d away (link {j = j} {xs = xs} e c) h =
    elim (Bool-cases (fits tbl i j req)) [
      | inl stop ↦ record {
        place = i;
        found = find_place-stop rounds tbl i req e stop;
        member = λ k p. p.0;
        before = [];
        behind = j ∷ xs;
        split = refl;
        chain = Chain-linked i req tbl d away (link e c);
      }
      | inr go ↦
          let r = find_place-Inserted rounds tbl req d.1 away.1 c (omega arith) in
          record {
            place = r.place;
            found = find_place-go rounds tbl i req e go ∙ r.found;
            member = λ k p. r.member k p.1;
            before = j ∷ r.before;
            behind = r.behind;
            split = ap (λ l. j ∷ l) r.split;
            chain =
                link
                  (ap (λ q. q.next)
                      (link_after-else r.place req tbl i (λ p. r.member i d.0 (sym p)) away.0)
                    ∙ e)
                  r.chain;
          }
    ]
