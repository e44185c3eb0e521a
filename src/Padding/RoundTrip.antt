-- ===== src/Padding/RoundTrip.antt =====
-- Removing the padding of a batch, and adding it again.
use ctranslate.Padding.Padder.{Padder}
