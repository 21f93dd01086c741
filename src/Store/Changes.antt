-- ===== src/Store/Changes.antt =====
-- What counting a change and clearing a cached value in src/store.c leave alone.
use pthreads.Base.{◌≡◌, refl, ◌∙◌, Bool, true, false, Option, none, some}
use pthreads.Zend.Key.{Key, same_key_refl}
use pthreads.Zend.Hash.{HashApi, find-del}
use pthreads.Store.Values.{Zval, Zstorage}
use pthreads.Store.{State, find_prop, bump_if, bump_modcount, del_prop}

module _ (S : HashApi Zstorage) (L : HashApi Zval) where
  pub bumped-table : (b : Bool) (s : State S L) → (bump_if S L b s).shared.hash ≡ s.shared.hash
  unfolding bump_modcount
  bumped-table true s = refl
  bumped-table false s = refl

  pub bumped-props : (b : Bool) (s : State S L) → (bump_if S L b s).local.props ≡ s.local.props
  unfolding bump_modcount
  bumped-props true s = refl
  bumped-props false s = refl

  pub del_prop-find_prop :
      (s : State S L) (k : Key) → find_prop S L (del_prop S L s k).local.props k ≡ none
  del_prop-find_prop s k = by_cases s.local.props
    where
      by_cases :
          (o : Option L.Table)
          → find_prop S L
              (del_prop S L (record s { local = record s.local { props = o } }) k).local.props
              k
            ≡ none
      by_cases none = refl
      by_cases (some t) = find-del L t k k ∙ rw (same_key_refl k) refl
