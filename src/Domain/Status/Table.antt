-- ===== src/Domain/Status/Table.antt =====
-- Facts about all statuses, checked one by one.
use interstellar_trade_platf.Base.{◌≡◌, refl, Bool, true, ◌&&◌, arith}
use interstellar_trade_platf.Domain.Status.{
  Status, offer_pending_export, offer_received, acceptance_pending_export,
  settlement_pending_export, completed, refund_pending_export, refunded, expired, cancelled,
  status_eq,
}

unfoldable pub for_all : (Status → Bool) → Bool
for_all p =
    p offer_pending_export
    && (p offer_received
        && (p acceptance_pending_export
            && (p settlement_pending_export
                && (p completed
                    && (p refund_pending_export && (p refunded && (p expired && p cancelled)))))))

pub for_all_sound : (p : Status → Bool) → for_all p ≡ true → (s : Status) → p s ≡ true
unfolding for_all
for_all_sound p h offer_pending_export = ground arith
for_all_sound p h _ = ground arith

pub status_eq→≡ : (s t : Status) → status_eq s t ≡ true → s ≡ t
status_eq→≡ s t h = ground arith

pub status_eq_self : (s : Status) → status_eq s s ≡ true
status_eq_self offer_pending_export = refl
status_eq_self _ = refl
