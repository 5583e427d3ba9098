-- ===== src/Complexity/Patterns/Families.antt =====
-- The families of security concepts: _SECURITY_FAMILIES of backend/services/complexity_scorer.py.
use mister_pilot_proxy.Prelude.{List, [], ◌∷◌}
use mister_pilot_proxy.Complexity.{Pattern, Family, rx}

abbrev pub authentication_words : Pattern
authentication_words = rx (
    "auth(?!or)\\w*" ∷ "log ?in" ∷ "sign ?in" ∷ "sign ?up" ∷ "sso" ∷ "oauth\\s?2?" ∷ "openid"
    ∷ "oidc" ∷ "saml" ∷ "sessions?" ∷ "mfa" ∷ "2fa" ∷ "passwords?" ∷ "passkeys?" ∷ "webauthn" ∷ [])

abbrev pub tokens_words : Pattern
tokens_words = rx (
    "jwts?" ∷ "refresh tokens?" ∷ "access tokens?" ∷ "bearer tokens?"
    ∷ "token (?:rotation|refresh|expiry|revocation)" ∷ "id tokens?" ∷ [])

abbrev pub authorization_words : Pattern
authorization_words = rx (
    "rbac" ∷ "abac" ∷ "permissions?" ∷ "role[- ]based" ∷ "(?:user|admin|access) roles?"
    ∷ "roles? and permissions" ∷ "access control" ∷ "acls?" ∷ "authori[sz]\\w+"
    ∷ "multi[- ]tenan\\w+" ∷ [])

abbrev pub cryptography_words : Pattern
cryptography_words = rx (
    "encrypt\\w*" ∷ "decrypt\\w*" ∷ "hash(?:ing)? (?:passwords?|secrets?)" ∷ "bcrypt" ∷ "argon2?"
    ∷ "scrypt" ∷ "tls" ∷ "ssl" ∷ "certificates?" ∷ "hmac" ∷ "signing" ∷ "signatures?" ∷ "crypto\\w*"
    ∷ "key rotation" ∷ [])

abbrev pub secrets_words : Pattern
secrets_words = rx (
    "secrets?" ∷ "api[- ]keys?" ∷ "private keys?" ∷ "credentials?" ∷ "vault" ∷ "kms" ∷ "dotenv"
    ∷ "env (?:file|secrets?)" ∷ [])

abbrev pub payments_words : Pattern
payments_words = rx (
    "payments?" ∷ "billing" ∷ "checkout" ∷ "pci" ∷ "credit cards?" ∷ "stripe" ∷ "invoic\\w+"
    ∷ "refunds?" ∷ "subscriptions?" ∷ [])

abbrev pub vulnerabilities_words : Pattern
vulnerabilities_words = rx (
    "xss" ∷ "csrf" ∷ "sql injection" ∷ "injection" ∷ "cve" ∷ "vulnerab\\w+" ∷ "sanitiz\\w+"
    ∷ "owasp" ∷ "ssrf" ∷ "rce" ∷ "exploit\\w*" ∷ [])

abbrev pub privacy_words : Pattern
privacy_words = rx ("pii" ∷ "gdpr" ∷ "hipaa" ∷ "personal data" ∷ "data retention" ∷ [])

abbrev pub security_families : List Family
security_families =
    record { name = "authentication"; pattern = authentication_words }
    ∷ record { name = "tokens"; pattern = tokens_words }
    ∷ record { name = "authorization"; pattern = authorization_words }
    ∷ record { name = "cryptography"; pattern = cryptography_words }
    ∷ record { name = "secrets"; pattern = secrets_words }
    ∷ record { name = "payments"; pattern = payments_words }
    ∷ record { name = "vulnerabilities"; pattern = vulnerabilities_words }
    ∷ record { name = "privacy"; pattern = privacy_words }
    ∷ []
