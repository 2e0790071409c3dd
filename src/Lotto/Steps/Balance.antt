-- ===== src/Lotto/Steps/Balance.antt =====
-- Sequences of calls and the balance of the books.
use glow_contracts.Lotto.Types.{Store}
use glow_contracts.Lotto.Books.{IsBalanced}
use glow_contracts.Lotto.Deposit.Balance.{execute_deposit-IsBalanced, execute_gift-IsBalanced}
use glow_contracts.Lotto.Deposit.Claim.{execute_claim_tickets_lem}
use glow_contracts.Lotto.Withdraw.Balance.{execute_withdraw-IsBalanced}
use glow_contracts.Lotto.Sponsor.Balance.{
  execute_sponsor-IsBalanced, execute_sponsor_withdraw-IsBalanced,
}
use glow_contracts.Lotto.Unbonding.Balance.{execute_claim_unbonded-IsBalanced}
use glow_contracts.Lotto.Claims.Balance.{execute_claim_lottery-IsBalanced}
use glow_contracts.Lotto.Draw.Balance.{execute_lottery-IsBalanced}
use glow_contracts.Lotto.Steps.{
  Step, deposits, gives, withdraws, sponsors, withdraws_sponsorship, draws, claims, claims_prizes,
  claims_tickets, Reach, here, next,
}

Step-IsBalanced : {s t : Store} → Step s t → IsBalanced s → IsBalanced t
Step-IsBalanced (deposits p s s' env info encoded operator msgs h) b =
    (execute_deposit-IsBalanced p s s' env info encoded operator msgs h b).0
Step-IsBalanced (gives p s s' env info encoded to operator msgs h) b =
    (execute_gift-IsBalanced p s s' env info encoded to operator msgs h b).1.0
Step-IsBalanced (withdraws p s s' env info amount instant msgs h) b =
    execute_withdraw-IsBalanced p s s' env info amount instant msgs h b
Step-IsBalanced (sponsors p s s' env info award distribution msgs h) b =
    execute_sponsor-IsBalanced p s s' env info award distribution msgs h b
Step-IsBalanced (withdraws_sponsorship p s s' env info msgs h) b =
    execute_sponsor_withdraw-IsBalanced p s s' env info msgs h b
Step-IsBalanced (draws p s s' env info msgs h) b =
    execute_lottery-IsBalanced p s s' env info msgs h b
Step-IsBalanced (claims_tickets p s s' env info encoded msgs h) b =
    (execute_claim_tickets_lem p s s' env info encoded msgs h b).0
Step-IsBalanced (claims p s s' env info msgs h) b =
    execute_claim_unbonded-IsBalanced p s s' env info msgs h b
Step-IsBalanced (claims_prizes p s s' env info ids msgs h) b =
    execute_claim_lottery-IsBalanced p s s' env info ids msgs h b

-- Books that are balanced stay so through every sequence of deposits, gifts, claims of tickets,
-- withdrawals, sponsorships, their withdrawals, draws, payments of unbonded withdrawals and claims
-- of prizes that succeed.
pub Reach-IsBalanced : {s t : Store} → Reach s t → IsBalanced s → IsBalanced t
Reach-IsBalanced here b = b
Reach-IsBalanced (next r st) b = Step-IsBalanced st (Reach-IsBalanced r b)
