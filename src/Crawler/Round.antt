-- ===== src/Crawler/Round.antt =====
-- The rounds of the crawler.
use sniffdogsniff.Shared.{◌≡◌, All}
use sniffdogsniff.Crawler.Scan.{WebCrawler}
use sniffdogsniff.Crawler.Urls.{HasSchemeMark}

-- The texts of the queue have `://` in them, and so do the urls of the entries that wait for their
-- broadcast, which are of the type SITE.
pub record IsCrawler (c : WebCrawler) : Type 0 where
  pub queue : All HasSchemeMark c.url_queue
  pub searches : All (λ se. HasSchemeMark se.url × (se.type ≡ 0)) c.searches
