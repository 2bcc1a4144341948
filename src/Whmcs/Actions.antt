-- ===== src/Whmcs/Actions.antt =====
-- apps/whmcs/actions.py
use whmcstemplate_bridge.Base.{
  if◌then◌else◌, f_string, one_of, whmcs_config, Outcome, returned, raised, String, ◌≡◌, refl, Bool,
  true, not, ◌&&◌, List, [], ◌∷◌,
}

-- the values of `Action`
abbrev pub allowed_actions : List String
allowed_actions =
    "WhmcsDetails" ∷ "GetCurrencies" ∷ "GetPaymentMethods" ∷ "ValidateLogin" ∷ "GetClients"
    ∷ "GetClientsDetails" ∷ "AddClient" ∷ "UpdateClient" ∷ "GetContacts" ∷ "AddContact"
    ∷ "UpdateContact" ∷ "GetEmails" ∷ "GetProducts" ∷ "GetPromotions" ∷ "GetTLDPricing" ∷ "AddOrder"
    ∷ "GetOrders" ∷ "AcceptOrder" ∷ "CancelOrder" ∷ "GetClientsProducts" ∷ "GetClientsAddons"
    ∷ "UpgradeProduct" ∷ "ModuleChangePw" ∷ "AddCancelRequest" ∷ "GetClientsDomains" ∷ "DomainWhois"
    ∷ "DomainGetNameservers" ∷ "DomainUpdateNameservers" ∷ "DomainGetLockingStatus"
    ∷ "DomainUpdateLockingStatus" ∷ "DomainRequestEPP" ∷ "DomainRenew" ∷ "DomainToggleIdProtect"
    ∷ "GetInvoices" ∷ "GetInvoice" ∷ "GetTransactions" ∷ "GetCredits" ∷ "GetQuotes" ∷ "AcceptQuote"
    ∷ "GetPayMethods" ∷ "AddInvoicePayment" ∷ "GetTickets" ∷ "GetTicket" ∷ "OpenTicket"
    ∷ "AddTicketReply" ∷ "UpdateTicket" ∷ "GetSupportDepartments" ∷ "GetTicketAttachment"
    ∷ "GetAnnouncements" ∷ []

abbrev pub forbidden_actions : List String
forbidden_actions =
    "DeleteClient" ∷ "DeleteOrder" ∷ "DeleteTicket" ∷ "DeleteQuote" ∷ "ModuleTerminate"
    ∷ "ModuleSuspend" ∷ "AddBannedIp" ∷ "DecryptPassword" ∷ "GetClientPassword"
    ∷ "SetConfigurationValue" ∷ "SendAdminEmail" ∷ "AddCredit" ∷ []

-- `_check_action` of apps/whmcs/client.py; `quoted` is the action as Python's repr prints it
unfoldable pub check_action : (quoted : String) → String → Outcome String
unfolding f_string
check_action quoted name =
    if one_of name forbidden_actions
    then raised
        (whmcs_config (f_string ("WHMCS action " ∷ quoted ∷ " is explicitly forbidden." ∷ [])))
    else if not (one_of name allowed_actions)
    then raised (
        whmcs_config (
          f_string
            ("WHMCS action " ∷ quoted ∷ " is not in the allowlist (apps/whmcs/actions.py)." ∷ [])))
    else returned name

-- No forbidden action is on the allowlist.
abbrev disjoint : List String → Bool
disjoint [] = true
disjoint (a ∷ actions) = not (one_of a allowed_actions) && disjoint actions

disjoint_test : disjoint forbidden_actions ≡ true
disjoint_test = refl
