-- ===== src/Energy/Paths.antt =====
-- Offers and trades of modules/EnergyManager on the way from the root to a market.
use everest_core_dev.Common.{ℕ, zero, suc, List, [], ◌∷◌}
use everest_core_dev.Floats.{Floats}
use everest_core_dev.Energy.{Tree, node, Forest, leaf, branch, ScheduleRes}
use everest_core_dev.Energy.Market.{Market, sell, trade_at, trade_in}
use everest_core_dev.Energy.Offer.{Offer, limit_offer, offer_at, offer_in}
use everest_core_dev.Energy.Amounts.{IsExact}
use everest_core_dev.Energy.Schedules.{
  AllWithin, AllUnder-refl, AllUnder-trans, AllUnder-AllWithin, schedule_add-Fits,
}
use everest_core_dev.Energy.Offers.{
  MarketFits, OfferUnder, left_of, OfferIsSound, limit_offer-IsSound,
}

module _ {F : Type 0} (fl : Floats F) (ts : List ℕ) where
  -- In every market of a tree, what is sold is within the limits.
  abbrev mutual
    pub TreeFits : Tree (Market F) → Type 0
    TreeFits (node m children) = MarketFits fl ts m × ForestFits children

    pub ForestFits : Forest (Market F) → Type 0
    ForestFits leaf = Unit
    ForestFits (branch t more) = TreeFits t × ForestFits more

  -- An offer is under what every market on a path has left.
  abbrev mutual
    pub PathUnder : Offer F → List ℕ → Tree (Market F) → Type 0
    PathUnder o [] (node m children) = OfferUnder fl ts o (left_of fl m)
    PathUnder o (k ∷ path) (node m children) =
        OfferUnder fl ts o (left_of fl m) × PathUnderIn o k path children

    pub PathUnderIn : Offer F → ℕ → List ℕ → Forest (Market F) → Type 0
    PathUnderIn o k path leaf = Unit
    PathUnderIn o zero path (branch t more) = PathUnder o path t
    PathUnderIn o (suc k) path (branch t more) = PathUnderIn o k path more

module _ {F : Type 0} (fl : Floats F) (voltage : F) (exact : IsExact fl voltage) (ts : List ℕ) where
  abbrev OfferIsGood : Offer F → Offer F → Type 0
  OfferIsGood o r = OfferIsSound fl ts r × OfferUnder fl ts r o

  -- The offer at a market is under what all markets from the root on have left.
  mutual
    unfolding offer_at

    pub offer_at-PathUnder :
        (path : List ℕ) (tree : Tree (Market F)) (o : Offer F)
        → TreeFits fl ts tree
        → OfferIsSound fl ts o
        → OfferIsGood o (offer_at fl path tree o)
          × PathUnder fl ts (offer_at fl path tree o) path tree
    offer_at-PathUnder [] (node m children) o fits sound =
        let l = limit_offer-IsSound fl voltage exact m o fits.0 sound in ((l.0, l.1), l.2)
    offer_at-PathUnder (k ∷ path) (node m children) o fits sound =
        let l = limit_offer-IsSound fl voltage exact m o fits.0 sound in
        let r = offer_in-PathUnder k path children (limit_offer fl m o) fits.1 l.0 in
        let ri = r.0.1.0 in
        let re = r.0.1.1 in
        (
          (
            r.0.0,
            (AllUnder-trans fl voltage exact ri l.1.0, AllUnder-trans fl voltage exact re l.1.1),
          ),
          (
            (AllUnder-trans fl voltage exact ri l.2.0, AllUnder-trans fl voltage exact re l.2.1),
            r.1,
          ),
        )

    offer_in-PathUnder :
        (k : ℕ) (path : List ℕ) (forest : Forest (Market F)) (o : Offer F)
        → ForestFits fl ts forest
        → OfferIsSound fl ts o
        → OfferIsGood o (offer_in fl k path forest o)
          × PathUnderIn fl ts (offer_in fl k path forest o) k path forest
    offer_in-PathUnder k path leaf o fits sound = (
      (
        sound,
        (
          AllUnder-refl fl voltage exact sound.0.sized,
          AllUnder-refl fl voltage exact sound.1.sized,
        ),
      ),
      tt,
    )
    offer_in-PathUnder zero path (branch t more) o fits sound =
        offer_at-PathUnder path t o fits.0 sound
    offer_in-PathUnder (suc k) path (branch t more) o fits sound =
        offer_in-PathUnder k path more o fits.1 sound

  sell-Fits :
      (m : Market F) (o : Offer F) (traded : ScheduleRes F)
      → MarketFits fl ts m
      → OfferUnder fl ts o (left_of fl m)
      → AllWithin fl ts o.import_offer o.export_offer traded
      → MarketFits fl ts (sell fl traded m)
  sell-Fits m o traded fits under within =
      schedule_add-Fits fl voltage exact fits
        (AllUnder-AllWithin fl voltage exact under.0 under.1 within)

  -- A trade within such an offer keeps every market within its limits.
  mutual
    unfolding trade_at

    pub trade_at-Fits :
        (path : List ℕ) (tree : Tree (Market F)) (o : Offer F) (traded : ScheduleRes F)
        → TreeFits fl ts tree
        → PathUnder fl ts o path tree
        → AllWithin fl ts o.import_offer o.export_offer traded
        → TreeFits fl ts (trade_at fl path traded tree)
    trade_at-Fits [] (node m children) o traded fits under within =
        (sell-Fits m o traded fits.0 under within, fits.1)
    trade_at-Fits (k ∷ path) (node m children) o traded fits under within = (
      sell-Fits m o traded fits.0 under.0 within,
      trade_in-Fits k path children o traded fits.1 under.1 within,
    )

    trade_in-Fits :
        (k : ℕ) (path : List ℕ) (forest : Forest (Market F)) (o : Offer F) (traded : ScheduleRes F)
        → ForestFits fl ts forest
        → PathUnderIn fl ts o k path forest
        → AllWithin fl ts o.import_offer o.export_offer traded
        → ForestFits fl ts (trade_in fl k path traded forest)
    trade_in-Fits k path leaf o traded fits under within = tt
    trade_in-Fits zero path (branch t more) o traded fits under within =
        (trade_at-Fits path t o traded fits.0 under within, fits.1)
    trade_in-Fits (suc k) path (branch t more) o traded fits under within =
        (fits.0, trade_in-Fits k path more o traded fits.1 under within)
