-- ===== src/Client/Network/Handles.antt =====
-- The connections of a client by their handles: how many have a context, and that handles are new.
use ferriot.Prelude.{
  ℕ, ◌+◌, ◌≤◌, ◌≡◌, refl, Bool, true, ◌&&◌, Option, none, some, [], ◌∷◌, arith, ltb,
}
use ferriot.Prelude.Table.{Table, find, put}
use ferriot.Transport.Connection.Outcomes.{own_count}
use ferriot.Client.Network.{Link}

module _ {X S : Type 0} where
  -- How many connections have a context.
  abbrev pub contexts : Table (Link X S) → ℕ
  contexts [] = 0
  contexts ((handle, link) ∷ links) = own_count link.ctx + contexts links

  abbrev pub below : ℕ → Table (Link X S) → Bool
  below n [] = true
  below n ((handle, link) ∷ links) = ltb handle n && below n links

  abbrev pub own_found : Option (Link X S) → ℕ
  own_found none = 0
  own_found (some link) = own_count link.ctx

  pub contexts-put :
      (handle : ℕ) (link : Link X S) (links : Table (Link X S))
      → contexts (put handle link links) + own_found (find handle links)
        ≡ contexts links + own_count link.ctx
  unfolding find put
  contexts-put handle link [] = ground arith
  contexts-put handle link ((h, l) ∷ links) = ground (arith, contexts-put handle link links)

  pub own_found-le :
      (handle : ℕ) (links : Table (Link X S)) → own_found (find handle links) ≤ contexts links
  unfolding find
  own_found-le handle [] = ground arith
  own_found-le handle ((h, l) ∷ links) = ground (arith, own_found-le handle links)

  pub below-put :
      (n handle : ℕ) (link : Link X S) (links : Table (Link X S))
      → below n links ≡ true
      → ltb handle n ≡ true
      → below n (put handle link links) ≡ true
  unfolding put
  below-put n handle link [] h lt = ground arith
  below-put n handle link ((k, l) ∷ links) h lt = ground (arith, below-put n handle link links)

  pub below-suc :
      (n : ℕ) (links : Table (Link X S)) → below n links ≡ true → below (n + 1) links ≡ true
  below-suc n [] h = refl
  below-suc n ((k, l) ∷ links) h = ground (arith, below-suc n links)

  pub below-find :
      (n handle : ℕ) (links : Table (Link X S)) {link : Link X S}
      → below n links ≡ true
      → find handle links ≡ some link
      → ltb handle n ≡ true
  unfolding find
  below-find n handle [] h e = absurd (ground arith)
  below-find n handle ((k, l) ∷ links) {link} h e =
      ground (arith, below-find n handle links {link = link})

  pub below-none : (n : ℕ) (links : Table (Link X S)) → below n links ≡ true → find n links ≡ none
  unfolding find
  below-none n [] h = refl
  below-none n ((k, l) ∷ links) h = ground (arith, below-none n links)
